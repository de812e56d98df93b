-- ===== src/Heap/Free/Links.antt =====
-- `free` between two chunks: the links.
use xesual.Base.{ℕ, ◌+◌, ◌^◌, ◌<◌, ◌≤◌, ◌≡◌, ◌≢◌, ◌⊎◌, inl, inr, ap, fun_ext, arith, ==_ne, u64}
use xesual.Machine.{Machine, ok, update}
use xesual.Machine.Memory.{load-ok, store-ok}
use xesual.PhysicalMemory.Free.Links.{forward, backward}
use xesual.Heap.{prev_of, bytes_of, link_next, link_prev}

pub link_next-apart :
    (self n next : ℕ) (m : Machine)
    → self ≢ 0
    → self + n < 2 ^ 64
    → (next ≡ 0) ⊎ (self + n < next)
    → link_next self n next m ≡ ok tt (record m { mem = forward m.mem self next })
unfolding link_next
link_next-apart self n next m ne small gap = elim gap [
  | inl z ↦
      rw (store-ok self next m ne, z)
        (ap (λ g. ok tt (record m { mem = g })) (fun_ext λ j. ground arith))
  | inr far ↦
      rw
        (
          store-ok self next m ne,
          ==_ne next 0 (λ e. omega arith),
          store-ok (prev_of next) self (record m { mem = update m.mem self next })
              (λ e. omega arith),
          ==_ne (u64 (self + n)) next (λ e. omega arith),
        )
        (ap (λ g. ok tt (record m { mem = g })) (fun_ext λ j. ground arith))
]

pub link_prev-apart :
    (self n prev : ℕ) (m : Machine)
    → self ≢ 0
    → prev ≢ 0
    → self < 2 ^ 64
    → prev + 24 ≤ self
    → prev + m.mem (bytes_of prev) < self
    → link_prev self n prev m ≡ ok tt (record m { mem = backward m.mem self prev })
unfolding link_prev
link_prev-apart self n prev m ne ne' small room gap =
    let m₁ : Machine = record m { mem = update m.mem (prev_of self) prev } in
    let m₂ : Machine = record m { mem = update m₁.mem prev self } in
    let size : m₂.mem (bytes_of prev) ≡ m.mem (bytes_of prev) = ground arith in
    rw
      (
        store-ok (prev_of self) prev m (λ e. omega arith),
        ==_ne prev 0 ne',
        store-ok prev self m₁ ne',
        load-ok (bytes_of prev) m₂ (λ e. omega arith),
        size,
        ==_ne (u64 (prev + m.mem (bytes_of prev))) self (λ e. omega arith),
      )
      (ap (λ g. ok tt (record m { mem = g })) (fun_ext λ j. ground arith))
