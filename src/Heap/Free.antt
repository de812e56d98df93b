-- ===== src/Heap/Free.antt =====
-- `free` between two chunks: the bytes come back in order, and are counted.
pub mod Links
pub mod Walk
pub mod Place
use xesual.Base.{
  ℕ, zero, suc, ◌+◌, ◌^◌, ◌<◌, ◌≤◌, ◌≡◌, ◌≢◌, inl, refl, ap, ◌∙◌, arith, [], ◌∷◌, ltb, ◌==◌,
  if◌then◌else◌, le→ltb, ==_ne, length, sub64, update,
}
use xesual.Machine.{Machine, heap_lock, Run, ok}
use xesual.Machine.Memory.{memset, cleared, load-ok, store-ok}
use xesual.Spinlock.Sections.{switched, acquire_free, release_lem, switched-Nesting}
use xesual.PhysicalMemory.Chunks.{Cells, Linked, place, Linked-from}
use xesual.Heap.{next_of, prev_of, bytes_of, header_size, set_heap_list, find_place, insert, free}
use xesual.Heap.Chunks.{HoldsBytes, InOrder, FitsIn, total_bytes}
use xesual.Heap.Header.{Nesting-mem}
use xesual.Heap.Free.Place.{Linked-around, place-InOrder, total_bytes-place}
use Walk.{Inserted, insert-place}

-- The memory with the new chunk's size, before it is linked.
abbrev pub prepared : (ℕ → ℕ) → (base n : ℕ) → ℕ → ℕ
prepared f base n = update (cleared f base n) (bytes_of base) n

-- A run that ends, in a state where the heap holds `ys`.
pub record Frees (i : ℕ) (ys : Cells) (run : Run (Unit {0})) : Type 0 where
  pub after : Machine
  pub runs : run ≡ ok tt after
  pub holds : HoldsBytes i after ys

-- The first chunk lies below the new one, so the walk goes past it.
past_head :
    (fuel base n p a : ℕ) (m : Machine)
    → p ≡ a
    → a ≢ 0
    → a ≤ base
    → (if p == 0 then set_heap_list base else insert (suc fuel) 0 p base n) m
      ≡ insert fuel a (m.mem (next_of a)) base n m
unfolding insert find_place
past_head fuel base n p a m e ne below =
    rw (e, ==_ne a 0 ne, le→ltb base a below, load-ok (next_of a) m ne) refl

module _ (i fuel base n a k : ℕ) (m : Machine) (xs : Cells) (h : HoldsBytes i m ((a, k) ∷ xs)) where
  -- The state in which the walk begins.
  abbrev begun : Machine
  begun = record (switched i heap_lock 1 m) { mem = prepared m.mem base n }

  link_in :
      m.mem base ≡ n
      → base ≢ 0
      → base + n < 2 ^ 64
      → m.heap_list ≡ a
      → a ≢ 0
      → a ≤ base
      → begun.mem (prev_of a) ≡ 0
      → begun.mem (bytes_of a) ≡ k
      → (ins : Inserted begun a
          (place base n xs)
          (insert fuel a (begun.mem (next_of a)) base n begun))
      → Frees i ((a, k) ∷ place base n xs) (free (suc fuel) (base + header_size) m)
  unfolding free memset
  link_in number ne' small p ne below back size ins =
      let locked = switched i heap_lock 1 m in
      let n₁ = switched-Nesting i heap_lock 1 m h.nesting in
      let m₂ : Machine = record locked { mem = ins.mem' } in
      let n₂ = Nesting-mem i ins.mem' locked n₁ in
      let at : sub64 (base + header_size) header_size ≡ base = omega arith in
      record {
        after = switched i heap_lock 0 m₂;
        runs =
            rw
              (
                acquire_free i heap_lock m h.nesting h.unheld,
                at,
                load-ok base locked ne',
                number,
                store-ok (bytes_of base) n (record locked { mem = cleared m.mem base n })
                    (λ e. omega arith),
                past_head fuel base n m.heap_list a begun p ne below ∙ ins.runs,
                release_lem i heap_lock m₂ n₂,
              )
              refl;
        holds = record {
          nesting = switched-Nesting i heap_lock 0 m₂ n₂;
          unheld = refl;
          linked = (
            p,
            ne,
            ins.front (prev_of a) (omega arith) (λ e. omega arith) ∙ back,
            ins.front (bytes_of a) (omega arith) (λ e. omega arith) ∙ size,
            Linked-from ins.mem' a a ins.head (ins.mem' (next_of a)) (place base n xs) refl ins.link
                ins.linked,
          );
        };
      }

free-Frees :
    (i fuel base n a k lo : ℕ) (xs : Cells) (m : Machine)
    → HoldsBytes i m ((a, k) ∷ xs)
    → 24 ≤ lo
    → InOrder lo ((a, k) ∷ xs)
    → a ≤ base
    → FitsIn base n (a + k) xs
    → m.mem base ≡ n
    → 24 ≤ n
    → base + n < 2 ^ 64
    → length ((a, k) ∷ xs) < fuel
    → Frees i (place base n ((a, k) ∷ xs)) (free fuel (base + header_size) m)
unfolding place
free-Frees i zero base n a k lo xs m h room o below fits number big small enough =
    absurd (omega arith)
free-Frees i (suc fuel) base n a k lo xs m h room o below fits number big small enough =
    let f = prepared m.mem base n in
    let (p, ne, back, size, l) =
      Linked-around m.mem f base n 0 m.heap_list lo ((a, k) ∷ xs) (λ j h. ground arith) o
        (inl (below, fits)) h.linked in
    rw (le→ltb base a below) (
      link_in i fuel base n a k m xs h number (λ e. omega (arith, o.0)) small p ne below back size
        (insert-place (record (switched i heap_lock 1 m) { mem = f }) base n big small
          (ground arith) fuel a (f (next_of a)) (a + k) xs ne l o.3 fits (omega (arith, o.1))
          (ap (λ t. a + t) size) refl (omega arith)))

-- `free` of bytes behind a header with their number, which lie above the first chunk, touch no chunk
-- and have room for its fields: the run ends, the lock is free again, and the heap holds the list
-- with the header and the bytes put in order of address. That list is again one of chunks in order,
-- and it has just these bytes more.
pub free-place :
    (i fuel base n a k lo : ℕ) (xs : Cells) (m : Machine)
    → HoldsBytes i m ((a, k) ∷ xs)
    → 24 ≤ lo
    → InOrder lo ((a, k) ∷ xs)
    → a ≤ base
    → FitsIn base n (a + k) xs
    → m.mem base ≡ n
    → 24 ≤ n
    → base + n < 2 ^ 64
    → length ((a, k) ∷ xs) < fuel
    → Frees i (place base n ((a, k) ∷ xs)) (free fuel (base + header_size) m)
      × InOrder lo (place base n ((a, k) ∷ xs))
      × (total_bytes (place base n ((a, k) ∷ xs)) ≡ n + total_bytes ((a, k) ∷ xs))
free-place i fuel base n a k lo xs m h room o below fits number big small enough = (
  free-Frees i fuel base n a k lo xs m h room o below fits number big small enough,
  place-InOrder base n lo ((a, k) ∷ xs) big small o (inl (below, fits)),
  total_bytes-place base n ((a, k) ∷ xs),
)
