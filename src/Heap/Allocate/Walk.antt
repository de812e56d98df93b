-- ===== src/Heap/Allocate/Walk.antt =====
-- The loop of `allocate` is first fit on the list that the memory holds.
use xesual.Base.{
  ℕ, zero, suc, ◌+◌, ◌-◌, ◌<◌, ◌≤◌, ◌≡◌, ◌≢◌, ◌⊎◌, inl, inr, refl, ap, ◌∙◌, arith, [], ◌∷◌, Option,
  none, some, leb, ◌==◌, if◌then◌else◌, leb→le, ==_ne, Bool-cases, length, u64,
}
use xesual.Machine.{Machine, heap_lock, Run, ok, update}
use xesual.Machine.Memory.{load, store, load-ok, store-ok}
use xesual.Cpu.Nesting.{Nesting}
use xesual.Spinlock.Sections.{switched, release_lem}
use xesual.PhysicalMemory.Chunks.{Cells, Linked, behind, Linked-Spaced, Linked-from, head-Spaced}
use xesual.PhysicalMemory.Allocate.Walk.Unlink.{relinked, relinked-Linked, written-relinked}
use xesual.Heap.{next_of, prev_of, bytes_of, header_size, unlink, take, allocate_loop}
use xesual.Heap.Chunks.{InOrder, InOrder-Spaced, first_fit}
use xesual.Heap.Header.{Nesting-heap, take-first}

abbrev pub unlinked : ℕ → Machine → Machine
unlinked a m = record m {
  mem = relinked m.mem (m.mem (prev_of a)) (m.mem (next_of a));
  heap_list = if a == m.heap_list then m.mem (next_of a) else m.heap_list;
}

unlink-at : (a : ℕ) (m : Machine) → a ≢ 0 → unlink a m ≡ ok tt (unlinked a m)
unfolding unlink load store
unlink-at a m h = ground (arith, written-relinked m.mem (m.mem (prev_of a)) (m.mem (next_of a)))

-- Where a walk stands: at the head of the list, or behind the chunk `prev`.
abbrev pub At : Machine → (prev p : ℕ) → Type 0
At m prev p =
    ((prev ≡ 0) × (m.heap_list ≡ p))
    ⊎ ((prev ≢ 0) × (m.heap_list ≤ prev) × (m.mem (next_of prev) ≡ p))

-- What the loop leaves when it finds room, from the chunk behind `prev` on.
pub record Given (i : ℕ) (m : Machine) (prev r : ℕ) (ys : Cells) (run : Run ℕ) : Type 0 where
  pub mem' : ℕ → ℕ
  pub list' : ℕ
  pub head : ℕ
  pub runs : run ≡ ok r (switched i heap_lock 0 (record m { mem = mem'; heap_list = list' }))
  pub linked : Linked mem' prev head ys
  pub front : (k : ℕ) → k < prev + 24 → k ≢ prev → mem' k ≡ m.mem k
  pub link : prev ≢ 0 → (mem' (next_of prev) ≡ head) × (list' ≡ m.heap_list)
  pub first : prev ≡ 0 → list' ≡ head

module _ (i : ℕ) (m : Machine) (n : Nesting i m) (actual prev a lo : ℕ) (xs : Cells) where
  -- A chunk that keeps some bytes stays where it is.
  take_some :
      (k : ℕ)
      → Linked m.mem prev a ((a, k) ∷ xs)
      → InOrder lo ((a, k) ∷ xs)
      → prev + 24 ≤ lo
      → At m prev a
      → actual ≤ k
      → 8 ≤ actual
      → k - actual ≢ 0
      → Given i m prev (a + (k - actual) + header_size) ((a, k - actual) ∷ xs) (take a k actual m)
  take_some k (e, ne, back, size, l) (above, big, fits, o) room at le header some_left = record {
    mem' = update m.mem (bytes_of a) (k - actual);
    list' = m.heap_list;
    head = a;
    runs = take-first i a k (k - actual) actual m n ne refl some_left (omega arith);
    linked = (
      refl,
      ne,
      ground arith,
      ground arith,
      let g = update m.mem (bytes_of a) (k - actual) in
          Linked-from g a a (m.mem (next_of a)) (g (next_of a)) xs refl (ground arith) (
            Linked-Spaced m.mem g a (m.mem (next_of a)) (a + k) xs (InOrder-Spaced (a + k) xs o)
              (λ j h. ground arith) l),
    );
    front = λ j h j'. ground arith;
    link = λ h. ground arith;
    first = λ h. ground arith;
  }

  -- A chunk that gives all its bytes leaves the list, and its neighbours are linked.
  take_all :
      (k : ℕ)
      → Linked m.mem prev a ((a, k) ∷ xs)
      → InOrder lo ((a, k) ∷ xs)
      → prev + 24 ≤ lo
      → At m prev a
      → actual ≤ k
      → k - actual ≡ 0
      → Given i m prev (a + (k - actual) + header_size) xs (take a k actual m)
  unfolding take
  take_all k (e, ne, back, size, l) (above, big, fits, o) room at le none_left =
      let f = update m.mem (bytes_of a) 0 in
      let next = m.mem (next_of a) in
      let above' : (next ≡ 0) ⊎ (a + k ≤ next) =
        head-Spaced m.mem a next (a + k) xs l (InOrder-Spaced (a + k) xs o) in
      let e₁ : f (prev_of a) ≡ prev = ground arith in
      let e₂ : f (next_of a) ≡ next = ground arith in
      let m₁ : Machine = record m { mem = f } in
      let m₂ = unlinked a m₁ in
      let n₂ : Nesting i m₂ = Nesting-heap i m₂.mem m₂.heap_list m n in
      let kept : relinked f (f (prev_of a)) (f (next_of a)) (bytes_of a) ≡ 0 = ground arith in
      record {
        mem' = relinked f prev next;
        list' = if a == m.heap_list then next else m.heap_list;
        head = next;
        runs =
            rw
              (
                none_left,
                store-ok (bytes_of a) 0 m (λ z. omega arith),
                unlink-at a m₁ ne,
                release_lem i heap_lock m₂ n₂,
                load-ok (bytes_of a) (switched i heap_lock 0 m₂) (λ z. omega arith),
              )
              ((λ t. ok (u64 (a + kept t + header_size)) (
                  switched i heap_lock 0 (record m {
                    mem = relinked f (e₁ t) (e₂ t);
                    heap_list = if a == m.heap_list then e₂ t else m.heap_list;
                  })))
                ∙ ap
                    (λ r. ok r (
                      switched i heap_lock 0 (record m {
                        mem = relinked f prev next;
                        heap_list = if a == m.heap_list then next else m.heap_list;
                      })))
                    (omega arith));
        linked =
            relinked-Linked f prev a next (a + k) xs
              (Linked-Spaced m.mem f a next (a + k) xs (InOrder-Spaced (a + k) xs o)
                (λ j h. ground arith) l)
              (InOrder-Spaced (a + k) xs o) (omega arith);
        front = λ j h j'. ground arith;
        link = λ h. (ground arith, ground arith);
        first = λ h. ground arith;
      }

-- What the loop leaves: room as first fit gives it, or no change at all.
abbrev pub Fit : ℕ → Machine → ℕ → Option (ℕ × Cells) → Run ℕ → Type 0
Fit i m prev none run = run ≡ ok 0 m
Fit i m prev (some (r, ys)) run = Given i m prev r ys run

-- A chunk that is passed over stays as it is.
pass :
    (i : ℕ) (m : Machine) (prev a k : ℕ) (o : Option (ℕ × Cells)) (run : Run ℕ)
    → a ≢ 0
    → m.mem (prev_of a) ≡ prev
    → m.mem (bytes_of a) ≡ k
    → prev + 24 ≤ a
    → At m prev a
    → Fit i m a o run
    → Fit i m prev (behind (a, k) o) run
pass i m prev a k none run ne back size room at fit = fit
pass i m prev a k (some (r, ys)) run ne back size room at fit = record {
  mem' = fit.mem';
  list' = fit.list';
  head = a;
  runs = fit.runs;
  linked = (
    refl,
    ne,
    ground (arith, fit.front (prev_of a)),
    ground (arith, fit.front (bytes_of a)),
    Linked-from fit.mem' a a fit.head (fit.mem' (next_of a)) ys refl (fit.link ne).0 fit.linked,
  );
  front = λ j h j'. fit.front j (omega arith) (omega arith);
  link = λ h. (ground (arith, fit.front prev), (fit.link ne).1);
  first = λ h. ground (arith, fit.link ne);
}

pub allocate_loop-Fit :
    (i fuel actual prev p lo : ℕ) (xs : Cells) (m : Machine)
    → Nesting i m
    → 8 ≤ actual
    → Linked m.mem prev p xs
    → InOrder lo xs
    → prev + 24 ≤ lo
    → At m prev p
    → length xs < fuel
    → Fit i m prev (first_fit actual xs) (allocate_loop fuel p actual m)
unfolding allocate_loop first_fit
allocate_loop-Fit i zero actual prev p lo xs m n header l o room at enough = absurd (omega arith)
allocate_loop-Fit i (suc fuel) actual prev p lo [] m n header l o room at enough = rw l refl
allocate_loop-Fit i (suc fuel) actual prev p lo ((a, k) ∷ xs) m n header (e, ne, back, size, l)
      (above, big, fits, o) room at enough =
    let at' : At m prev a = rw e at at in
    rw (e, ==_ne a 0 ne, load-ok (bytes_of a) m (λ z. omega arith), size)
      (elim (Bool-cases (leb actual k)) [
        | inl t ↦ rw t (elim (Bool-cases (k - actual == 0)) [
          | inl z ↦ rw z (
              take_all i m n actual prev a lo xs k (refl, ne, back, size, l) (above, big, fits, o)
                room at' (leb→le actual k t) (ground arith))
          | inr z ↦ rw z (
              take_some i m n actual prev a lo xs k (refl, ne, back, size, l) (above, big, fits, o)
                room at' (leb→le actual k t) header (λ y. ground arith))
        ])
        | inr t ↦
            rw (t, load-ok (next_of a) m ne)
              (pass i m prev a k (first_fit actual xs)
                (allocate_loop fuel (m.mem (next_of a)) actual m) ne back size (omega arith) at'
                (allocate_loop-Fit i fuel actual a (m.mem (next_of a)) (a + k) xs m n header l o
                  (omega arith) (inr (ne, ground arith, refl)) (omega arith)))
      ])
