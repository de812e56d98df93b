-- ===== src/Heap/Exhausted.antt =====
-- `allocate` where no chunk is large enough.
use xesual.Base.{
  ℕ, zero, suc, ◌+◌, ◌<◌, ◌≡◌, ◌≢◌, refl, arith, List, [], ◌∷◌, length, ==_ne, u64, lt→leb,
}
use xesual.Machine.{Machine, heap_lock, ok, hang, ◌>>=◌}
use xesual.Machine.Memory.{load-ok}
use xesual.Cpu.Nesting.{Nesting}
use xesual.Spinlock.{acquire}
use xesual.Spinlock.Sections.{switched, acquire_free, acquire_held, switched-Nesting}
use xesual.Heap.{next_of, bytes_of, header_size, allocate, allocate_loop}

-- From `p` on the memory holds chunks at these addresses, with so many bytes each.
abbrev pub BytesChain : (ℕ → ℕ) → ℕ → List (ℕ × ℕ) → Type 0
BytesChain f p [] = p ≡ 0
BytesChain f p ((a, n) ∷ xs) =
    (p ≡ a) × (a ≢ 0) × (f (bytes_of a) ≡ n) × BytesChain f (f (next_of a)) xs

-- No chunk has as many bytes.
abbrev pub TooSmall : ℕ → List (ℕ × ℕ) → Type 0
TooSmall size [] = Unit {0}
TooSmall size ((a, n) ∷ xs) = (n < size) × TooSmall size xs

loop_through :
    (fuel p size : ℕ) (xs : List (ℕ × ℕ)) (m : Machine)
    → BytesChain m.mem p xs
    → TooSmall size xs
    → length xs < fuel
    → allocate_loop fuel p size m ≡ ok 0 m
unfolding allocate_loop
loop_through zero p size xs m c s h = absurd (omega arith)
loop_through (suc fuel) p size [] m c s h = rw c refl
loop_through (suc fuel) p size ((a, n) ∷ xs) m (e, ne, k, c) (small, s) h =
    rw
      (
        e,
        ==_ne a 0 ne,
        load-ok (bytes_of a) m (λ z. omega arith),
        k,
        lt→leb size n small,
        load-ok (next_of a) m ne,
      )
      (loop_through fuel (m.mem (next_of a)) size xs m c s (omega arith))

-- Where no chunk has the size and the header, `allocate`, with fuel for each chunk and one more,
-- returns null, but keeps the lock: the next call of `allocate` never ends.
pub allocate-exhausted :
    (i fuel size : ℕ) (xs : List (ℕ × ℕ)) (m : Machine)
    → Nesting i m
    → m.held heap_lock ≡ 0
    → BytesChain m.mem m.heap_list xs
    → TooSmall (u64 (size + header_size)) xs
    → length xs < fuel
    → (allocate fuel size m ≡ ok 0 (switched i heap_lock 1 m))
      × ((allocate fuel size >>= λ _. allocate fuel size) m ≡ hang)
unfolding allocate
allocate-exhausted i fuel size xs m n unheld c s h = (first, rw (first, again) refl)
  where
    taken : Machine
    taken = switched i heap_lock 1 m

    first : allocate fuel size m ≡ ok 0 (switched i heap_lock 1 m)
    first = rw (acquire_free i heap_lock m n unheld) (
        loop_through fuel m.heap_list (u64 (size + header_size)) xs (switched i heap_lock 1 m) c s
          h)

    again : acquire heap_lock (switched i heap_lock 1 m) ≡ hang
    again =
        acquire_held i heap_lock (switched i heap_lock 1 m)
          (switched-Nesting i heap_lock 1 m n).here (λ e. omega arith)
