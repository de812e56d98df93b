-- ===== src/PhysicalMemory/Free.antt =====
-- `freePages` between two chunks: the pages come back in order, and are counted.
pub mod Links
mod Walk
pub mod Last
pub mod Place
use xesual.Base.{
  ℕ, zero, suc, ◌+◌, ◌*◌, ◌^◌, ◌<◌, ◌≤◌, ◌≡◌, ◌≢◌, ◌⊎◌, inl, inr, refl, ap, ◌∙◌, arith, [], ◌∷◌,
  true, false, ltb, ◌==◌, if◌then◌else◌, lt→ltb, le→ltb, ==_ne, length, u64,
}
use xesual.Machine.{Machine, page_lock, Run, ok, ◌>>=◌, ◌>>◌, and_then, get, update}
use xesual.Machine.Memory.{load, store, memset, cleared, load-ok, store-ok}
use xesual.Spinlock
use xesual.Spinlock.{set_held}
use xesual.Address.{page_size}
use xesual.PhysicalMemory.{
  next_of, prev_of, pages_of, lock_pages, unlock_pages, find_place, insert, free_pages,
  set_page_list, init,
}
use xesual.PhysicalMemory.Chunks.{
  Cells, Linked, Ordered, place, Fits, total_pages, Linked-above, Linked-from,
}
use xesual.PhysicalMemory.Access.{Holds, ListAt, along, Usable-pages, enter, leave, Entered}
use xesual.PhysicalMemory.Free.Place.{Linked-around, place-Ordered, total_pages-place}
use Walk.{Inserted, insert-place}

-- The memory with the new chunk's header, before it is linked.
abbrev pub prepared : (ℕ → ℕ) → (base n : ℕ) → ℕ → ℕ
prepared f base n = update (cleared f base (page_size * n)) (pages_of base) n

-- The list of a state behind its first chunk, with that chunk in front.
with_head :
    (m : Machine) (a k : ℕ) (ys : Cells) (run : Run (Unit {0})) (i : Inserted m a ys run)
    → a ≢ 0
    → m.mem (prev_of a) ≡ 0
    → m.mem (pages_of a) ≡ k
    → Linked i.mem' 0 a ((a, k) ∷ ys)
with_head m a k ys run i ne back size = (
  refl,
  ne,
  ground (arith, i.front (prev_of a)),
  ground (arith, i.front (pages_of a)),
  Linked-from i.mem' a a i.head (i.mem' (next_of a)) ys refl i.link i.linked,
)

-- A run that ends, in a state where the allocator holds `ys`.
pub record Frees (ys : Cells) (run : Run (Unit {0})) : Type 0 where
  pub after : Machine
  pub runs : run ≡ ok tt after
  pub holds : Holds after ys

-- The first chunk lies below the new one, so the walk goes past it.
pub past_head :
    (fuel base n p a : ℕ) (m : Machine)
    → p ≡ a
    → a ≢ 0
    → a ≤ base
    → (if p == 0 then set_page_list base else insert (suc fuel) 0 p base n) m
      ≡ insert fuel a (m.mem (next_of a)) base n m
unfolding insert find_place
past_head fuel base n p a m e ne below =
    rw (e, ==_ne a 0 ne, le→ltb base a below, load-ok (next_of a) m ne)

module _ (fuel base n a k : ℕ) (m : Machine) (e : Entered m) (xs : Cells) where
  -- The state in which the walk begins.
  abbrev begun : Machine
  begun = record e.inside { mem = prepared e.inside.mem base n }

  link_in :
      0 < n
      → base + page_size * n < 2 ^ 64
      → e.inside.page_list ≡ a
      → a ≢ 0
      → a ≤ base
      → begun.mem (prev_of a) ≡ 0
      → begun.mem (pages_of a) ≡ k
      → (i : Inserted begun a
          (place base n xs)
          (insert fuel a (begun.mem (next_of a)) base n begun))
      → Frees ((a, k) ∷ place base n xs) (free_pages (suc fuel) base n m)
  unfolding free_pages memset
  link_in pos small p ne below back size i =
      let w =
        leave (record begun { mem = i.mem' })
          (Usable-pages e.inside i.mem' e.inside.page_list e.usable) in
      let whole : u64 (page_size * n) ≡ page_size * n = omega arith in
      record {
        after = w.outside;
        runs = rw (
          e.runs,
          whole,
          store-ok (pages_of base) n
              (record e.inside { mem = cleared e.inside.mem base (page_size * n) }) (omega arith),
          past_head fuel base n e.inside.page_list a begun p ne below ∙ i.runs,
          w.runs,
        );
        holds = record {
          ready = w.ready;
          linked = along (ListAt ((a, k) ∷ place base n xs)) w.same (
              Linked-from i.mem' 0 0 a e.inside.page_list ((a, k) ∷ place base n xs) refl p (
                with_head begun a k (place base n xs)
                  (insert fuel a (begun.mem (next_of a)) base n begun) i ne back size));
        };
      }

free_pages-Frees :
    (fuel base n a k lo : ℕ) (xs : Cells) (m : Machine)
    → Holds m ((a, k) ∷ xs)
    → 24 ≤ lo
    → Ordered lo ((a, k) ∷ xs)
    → a ≤ base
    → Fits base n (a + page_size * k) xs
    → 0 < n
    → base + page_size * n < 2 ^ 64
    → length ((a, k) ∷ xs) < fuel
    → Frees (place base n ((a, k) ∷ xs)) (free_pages fuel base n m)
unfolding place
free_pages-Frees zero base n a k lo xs m holds room o below fits pos small enough =
    absurd (omega arith)
free_pages-Frees (suc fuel) base n a k lo xs m holds room o below fits pos small enough =
    let e = enter m holds.ready in
    let f = prepared e.inside.mem base n in
    let (p, ne, back, size, l) =
      Linked-around e.inside.mem f base n 0 e.inside.page_list lo ((a, k) ∷ xs) pos
        (λ j h. ground arith) o (inl (below, fits))
        (along (ListAt ((a, k) ∷ xs)) e.same holds.linked) in
    rw (le→ltb base a below) (
      link_in fuel base n a k m e xs pos small p ne below back size (
        insert-place (record e.inside { mem = f }) base n pos small (ground arith) fuel a
          (f (next_of a)) (a + page_size * k) xs ne l o.3 fits (omega (arith, o.1))
          (ap (λ t. a + page_size * t) size) refl (omega arith)))

-- `freePages` of pages that lie above the first chunk and touch no chunk: the run ends, the lock is
-- free again, and the allocator holds the list with the pages put in order of address. That list is
-- again one of chunks in order, and it has just these pages more.
pub free_pages-place :
    (fuel base n a k lo : ℕ) (xs : Cells) (m : Machine)
    → Holds m ((a, k) ∷ xs)
    → 24 ≤ lo
    → Ordered lo ((a, k) ∷ xs)
    → a ≤ base
    → Fits base n (a + page_size * k) xs
    → 0 < n
    → base + page_size * n < 2 ^ 64
    → length ((a, k) ∷ xs) < fuel
    → Frees (place base n ((a, k) ∷ xs)) (free_pages fuel base n m)
      × Ordered lo (place base n ((a, k) ∷ xs))
      × (total_pages (place base n ((a, k) ∷ xs)) ≡ n + total_pages ((a, k) ∷ xs))
free_pages-place fuel base n a k lo xs m holds room o below fits pos small enough = (
  free_pages-Frees fuel base n a k lo xs m holds room o below fits pos small enough,
  place-Ordered base n lo ((a, k) ∷ xs) pos small o (inl (below, fits)),
  total_pages-place base n ((a, k) ∷ xs),
)

-- `freePages` into an empty list: the run ends, and the allocator holds just these pages.
pub free_pages-first :
    (fuel base n : ℕ) (m : Machine)
    → Holds m []
    → 0 < base
    → 0 < n
    → base + page_size * n < 2 ^ 64
    → Frees ((base, n) ∷ []) (free_pages fuel base n m)
unfolding free_pages memset
free_pages-first fuel base n m holds pos many small =
    let e = enter m holds.ready in
    let p : e.inside.page_list ≡ 0 = e.same.list ∙ holds.linked in
    let f = prepared e.inside.mem base n in
    let m₁ : Machine = record e.inside { mem = f } in
    let whole : u64 (page_size * n) ≡ page_size * n = omega arith in
    let none_yet : (e.inside.page_list == 0) ≡ true = ground arith in
    let w = leave (record m₁ { page_list = base }) (Usable-pages e.inside f base e.usable) in
    record {
      after = w.outside;
      runs = rw (
        e.runs,
        whole,
        store-ok (pages_of base) n
            (record e.inside { mem = cleared e.inside.mem base (page_size * n) }) (omega arith),
        none_yet,
        w.runs,
      );
      holds = record {
        ready = w.ready;
        linked =
            along (ListAt ((base, n) ∷ [])) w.same
              (refl, omega arith, ground arith, ground arith, ground arith);
      };
    }

-- After `init` the allocator holds no pages, and the lock is free and not in use.
pub init-Holds :
    (m : Machine)
    → (m' : Machine) × (init m ≡ ok tt m')
      × Holds m' []
      × (m'.using_lock ≡ false)
      × (m'.held page_lock ≡ 0)
unfolding init Spinlock.init
init-Holds m = (
  record (set_held page_lock 0 m) { using_lock = false; page_list = 0 },
  refl,
  record { ready = record { usable = inl refl; free = λ t. refl }; linked = refl },
  refl,
  refl,
)
