-- ===== src/Heap/Returned.antt =====
-- What `allocate` has given out is given back to `free`.
use xesual.Base.{
  ℕ, suc, ◌+◌, ◌^◌, ◌≤◌, ◌<◌, ◌≡◌, ◌≢◌, refl, ap, arith, [], ◌∷◌, ==_ne, ==_refl, u64, sub64,
  le→ltb, update,
}
use xesual.Machine.{Machine, heap_lock, ok, ◌>>=◌}
use xesual.Machine.Memory.{cleared, memset, load-ok, store-ok}
use xesual.Cpu.Nesting.{Nesting}
use xesual.Spinlock.Sections.{switched, acquire_free, release_lem, switched-Nesting}
use xesual.Heap.{
  next_of, prev_of, bytes_of, header_size, allocate, free, find_place, link_next, link_prev, insert,
}
use xesual.Heap.Exhausted.{BytesChain}
use xesual.Heap.Header.{cut_off, Nesting-mem, allocate-header}

-- The chunk at `self`, of `w` bytes, cleared and put behind the only chunk, which ends where it
-- begins and has `left` bytes.
module _ (f : ℕ → ℕ) (a left w : ℕ) where
  abbrev self : ℕ
  self = a + left

  abbrev prepared : ℕ → ℕ
  prepared = update (cleared f self w) (bytes_of self) w

  abbrev joined : ℕ → ℕ
  joined =
      update (update (update (update prepared (next_of self) 0) (prev_of self) a) (next_of a) self)
        (bytes_of a) (left + w)

  module _ (ne : a ≢ 0) (room : 24 ≤ left) (fits : a + left + 24 < 2 ^ 64)
      (small : left + w < 2 ^ 64) (only : f (next_of a) ≡ 0) (has : f (bytes_of a) ≡ left) where
    insert-joined :
        (fuel : ℕ) (m : Machine)
        → insert (suc (suc fuel)) 0 a self w (record m { mem = prepared })
          ≡ ok tt (record m { mem = joined })
    unfolding insert find_place link_next link_prev
    insert-joined fuel m =
        rw
          (
            ==_ne a 0 ne,
            le→ltb self a (omega arith),
            load-ok (next_of a) (record m { mem = prepared }) ne,
            (let e : prepared (next_of a) ≡ 0 = ground arith in e),
            store-ok (next_of self) 0 (record m { mem = prepared }) (λ e. omega arith),
            store-ok (prev_of self) a _ (λ e. omega arith),
            ==_ne a 0 ne,
            store-ok (next_of a) self _ ne,
            load-ok (bytes_of a) _ (λ e. omega arith),
            (let e : update (update (update prepared (next_of self) 0) (prev_of self) a) (next_of a)
                      self (bytes_of a)
                    ≡ left =
                  ground arith in
                e),
            (let e : u64 (a + left) ≡ self = omega arith in e),
            ==_refl self,
            store-ok (bytes_of a) (u64 (left + w)) _ (λ e. omega arith),
          )
          (ap
            (λ (k : ℕ). ok tt (record m {
              mem =
                  update
                    (update (update (update prepared (next_of self) 0) (prev_of self) a) (next_of a)
                      self)
                    (bytes_of a) k;
            }))
            (let e : u64 (left + w) ≡ left + w = omega arith in e))

    -- The list then has both: the chunk that has grown, and the one that it has grown by.
    joined-BytesChain : BytesChain joined a ((a, left + w) ∷ (self, w) ∷ [])
    joined-BytesChain =
        (refl, ne, ground arith, (ground arith, (λ e. omega arith), ground arith, ground arith))

-- With one chunk in the heap, of which `left` bytes remain, `allocate` of `size` bytes and then `free`
-- of what it returns end, with the lock free again. The word `w` in front of the bytes, which
-- `allocate` does not write, is taken for their number, whatever `size` is; and the list has those
-- bytes twice: the chunk has grown by them, and is followed by a chunk of them.
pub free-allocate :
    (i fuel size left w : ℕ) (m : Machine)
    → Nesting i m
    → m.held heap_lock ≡ 0
    → m.heap_list ≢ 0
    → m.mem (next_of m.heap_list) ≡ 0
    → m.mem (bytes_of m.heap_list) ≡ left + (size + header_size)
    → m.heap_list + left + (size + header_size) + 24 < 2 ^ 64
    → 24 ≤ left
    → m.mem (m.heap_list + left) ≡ w
    → left + w < 2 ^ 64
    → (m' : Machine) × ((allocate (suc fuel) size >>= free (suc (suc fuel))) m ≡ ok tt m')
      × (m'.heap_list ≡ m.heap_list)
      × BytesChain m'.mem m.heap_list ((m.heap_list, left + w) ∷ (m.heap_list + left, w) ∷ [])
      × (m'.held heap_lock ≡ 0)
unfolding free memset
free-allocate i fuel size left w m n unheld ne only has fits room front small =
    let a = m.heap_list in
    let m₁ = cut_off i a left m in
    let n₁ : Nesting i m₁ =
      let locked = switched i heap_lock 1 m in
      switched-Nesting i heap_lock 0 (record locked { mem = update m.mem (bytes_of a) left })
        (Nesting-mem i (update m.mem (bytes_of a) left) locked
          (switched-Nesting i heap_lock 1 m n)) in
    let m₂ = switched i heap_lock 1 m₁ in
    let n₂ = switched-Nesting i heap_lock 1 m₁ n₁ in
    let f = update m.mem (bytes_of a) left in
    let m₃ : Machine = record m₂ { mem = joined f a left w } in
    let n₃ = Nesting-mem i (joined f a left w) m₂ n₂ in
    let base : sub64 (a + left + header_size) header_size ≡ a + left = omega arith in
    let alone : f (next_of a) ≡ 0 = rw (==_ne (bytes_of a) (next_of a) (λ e. omega arith)) only in
    let grown : f (bytes_of a) ≡ left = rw (==_refl (bytes_of a)) refl in
    let number : f (a + left) ≡ w = rw (==_ne (bytes_of a) (a + left) (λ e. omega arith)) front in
    (
      switched i heap_lock 0 m₃,
      rw
          (
            (allocate-header i fuel size left m n unheld ne has (omega arith) room).0,
            acquire_free i heap_lock m₁ n₁ refl,
            base,
            load-ok (a + left) m₂ (λ e. omega arith),
            number,
            store-ok (bytes_of (a + left)) w _ (λ e. omega arith),
            ==_ne a 0 ne,
            insert-joined f a left w ne room (omega arith) small alone grown fuel m₂,
            release_lem i heap_lock m₃ n₃,
          )
          refl,
      refl,
      joined-BytesChain f a left w ne room (omega arith) small alone grown,
      refl,
    )
