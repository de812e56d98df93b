-- ===== src/PhysicalMemory/Free/Links.antt =====
-- `freePages` between two chunks: the links.
use xesual.Base.{
  ℕ, ◌+◌, ◌*◌, ◌^◌, ◌<◌, ◌≤◌, ◌≡◌, ◌≢◌, ◌⊎◌, inl, inr, ap, fun_ext, ◌&&◌, arith, not, ◌==◌,
  if◌then◌else◌, ==_ne, u64,
}
use xesual.Machine.{Machine, ok, update}
use xesual.Machine.Memory.{load-ok, store-ok}
use xesual.Address.{page_size}
use xesual.PhysicalMemory.{prev_of, pages_of, link_next, link_prev}

-- The memory once the chunk at `self` points on to `next`, and `next` back to it.
abbrev pub forward : (ℕ → ℕ) → (self next : ℕ) → ℕ → ℕ
forward f self next j =
    if not (next == 0) && (prev_of next == j) then self else (if self == j then next else f j)

-- The memory once the chunk at `self` points back to `prev`, and `prev` on to it.
abbrev pub backward : (ℕ → ℕ) → (self prev : ℕ) → ℕ → ℕ
backward f self prev j = if prev == j then self else (if prev_of self == j then prev else f j)

pub link_next-apart :
    (self n next : ℕ) (m : Machine)
    → self ≢ 0
    → self + page_size * n < 2 ^ 64
    → (next ≡ 0) ⊎ (self + page_size * n < next)
    → link_next self n next m ≡ ok tt (record m { mem = forward m.mem self next })
unfolding link_next
link_next-apart self n next m ne small gap = elim gap [
  | inl z ↦
      rw (store-ok self next m ne, z)
        (ap (λ g. ok tt (record m { mem = g })) (fun_ext λ j. ground arith))
  | inr far ↦
      rw
        (
          store-ok self next m ne,
          ==_ne next 0 (omega arith),
          store-ok (prev_of next) self (record m { mem = update m.mem self next }) (omega arith),
          ==_ne (u64 (self + u64 (page_size * n))) next (omega arith),
        )
        (ap (λ g. ok tt (record m { mem = g })) (fun_ext λ j. ground arith))
]

pub link_prev-apart :
    (self n prev : ℕ) (m : Machine)
    → self ≢ 0
    → prev ≢ 0
    → self < 2 ^ 64
    → prev + 24 ≤ self
    → prev + page_size * m.mem (pages_of prev) < self
    → link_prev self n prev m ≡ ok tt (record m { mem = backward m.mem self prev })
unfolding link_prev
link_prev-apart self n prev m ne ne' small room gap =
    let m₁ : Machine = record m { mem = update m.mem (prev_of self) prev } in
    let m₂ : Machine = record m { mem = update m₁.mem prev self } in
    let size : m₂.mem (pages_of prev) ≡ m.mem (pages_of prev) = ground arith in
    rw
      (
        store-ok (prev_of self) prev m (omega arith),
        ==_ne prev 0 ne',
        store-ok prev self m₁ ne',
        load-ok (pages_of prev) m₂ (omega arith),
        size,
        ==_ne (u64 (prev + u64 (page_size * m.mem (pages_of prev)))) self (omega arith),
      )
      (ap (λ g. ok tt (record m { mem = g })) (fun_ext λ j. ground arith))
