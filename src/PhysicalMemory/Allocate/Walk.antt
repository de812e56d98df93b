-- ===== src/PhysicalMemory/Allocate/Walk.antt =====
-- The loop of `allocatePages` is first fit on the list that the memory holds.
pub mod Unlink
use xesual.Base.{
  ℕ, zero, suc, ◌+◌, ◌-◌, ◌*◌, ◌^◌, ◌<◌, ◌≤◌, ◌≡◌, ◌≢◌, ◌⊎◌, inl, inr, refl, fun_ext, ◌&&◌, arith,
  [], ◌∷◌, Option, none, some, true, false, not, leb, ◌==◌, if◌then◌else◌, leb→le, ==_ne,
  Bool-cases, length,
}
use xesual.Machine.{Machine, Run, ok, update}
use xesual.Machine.Memory.{load, store, load-ok, store-ok}
use xesual.Address.{page_size}
use xesual.PhysicalMemory.{next_of, prev_of, pages_of, unlink, take_pages, reserve_loop}
use xesual.PhysicalMemory.Chunks.{
  Cells, Linked, Ordered, Ordered-Spaced, behind, first_fit, Linked-above, Linked-from, head-above,
}
use xesual.PhysicalMemory.Allocate.Walk.Unlink.{relinked, unlinked, unlink-at, relinked-Linked}

-- Where a walk stands: at the head of the list, or behind the chunk `prev`.
abbrev pub At : Machine → (prev p : ℕ) → Type 0
At m prev p =
    ((prev ≡ 0) × (m.page_list ≡ p))
    ⊎ ((prev ≢ 0) × (m.page_list ≤ prev) × (m.mem (next_of prev) ≡ p))

-- What the loop leaves when it finds room, from the chunk behind `prev` on.
pub record Reserved (m : Machine) (prev r : ℕ) (ys : Cells) (run : Run ℕ) : Type 0 where
  pub mem' : ℕ → ℕ
  pub list' : ℕ
  pub chunk : ℕ
  pub head : ℕ
  pub runs : run ≡ ok chunk (record m { mem = mem'; page_list = list' })
  pub ne : chunk ≢ 0
  pub addr : chunk + page_size * mem' (pages_of chunk) ≡ r
  pub small : r < 2 ^ 64
  pub linked : Linked mem' prev head ys
  pub front : (k : ℕ) → k < prev + 24 → k ≢ prev → mem' k ≡ m.mem k
  pub link : prev ≢ 0 → (mem' (next_of prev) ≡ head) × (list' ≡ m.page_list)
  pub first : prev ≡ 0 → list' ≡ head

module _ (m : Machine) (n prev a lo : ℕ) (xs : Cells) where
  abbrev left : ℕ
  left = m.mem (pages_of a) - n

  abbrev shrunk : Machine
  shrunk = record m { mem = update m.mem (pages_of a) left }

  -- A chunk that keeps some pages stays where it is.
  take_some :
      (k : ℕ)
      → Linked m.mem prev a ((a, k) ∷ xs)
      → Ordered lo ((a, k) ∷ xs)
      → prev + 24 ≤ lo
      → At m prev a
      → n ≤ k
      → (k - n == 0) ≡ false
      → Reserved m prev (a + page_size * (k - n)) ((a, k - n) ∷ xs) (take_pages a k n m)
  unfolding take_pages
  take_some k (e, ne, back, size, l) (above, pos, fits, o) room at le some_left = record {
    mem' = update m.mem (pages_of a) (k - n);
    list' = m.page_list;
    chunk = a;
    head = a;
    runs = rw (store-ok (pages_of a) (k - n) m (omega arith), some_left);
    ne = ne;
    addr = ground arith;
    small = omega arith;
    linked = (
      refl,
      ne,
      ground arith,
      ground arith,
      let g = update m.mem (pages_of a) (k - n) in
          Linked-from g a a (m.mem (next_of a)) (g (next_of a)) xs refl (ground arith) (
            Linked-above m.mem g a (m.mem (next_of a)) (a + page_size * k) xs o
              (λ j h. ground arith) l),
    );
    front = λ k h k'. ground arith;
    link = λ h. ground arith;
    first = λ h. ground arith;
  }

  -- A chunk that gives all its pages leaves the list, and its neighbours are linked.
  take_all :
      (k : ℕ)
      → Linked m.mem prev a ((a, k) ∷ xs)
      → Ordered lo ((a, k) ∷ xs)
      → prev + 24 ≤ lo
      → At m prev a
      → n ≤ k
      → (k - n == 0) ≡ true
      → Reserved m prev (a + page_size * (k - n)) xs (take_pages a k n m)
  unfolding take_pages
  take_all k (e, ne, back, size, l) (above, pos, fits, o) room at le none_left =
      let f = update m.mem (pages_of a) (k - n) in
      let next = m.mem (next_of a) in
      let above' : (next ≡ 0) ⊎ (a + page_size * k ≤ next) =
        head-above m.mem a next (a + page_size * k) xs l o in
      let e₁ : f (prev_of a) ≡ prev = ground arith in
      let e₂ : f (next_of a) ≡ next = ground arith in
      record {
        mem' = relinked f prev next;
        list' = if a == m.page_list then next else m.page_list;
        chunk = a;
        head = next;
        runs =
            rw
              (
                store-ok (pages_of a) (k - n) m (omega arith),
                none_left,
                unlink-at a (record m { mem = f }) ne,
              )
              (λ i. ok a (record m {
                mem = relinked f (e₁ i) (e₂ i);
                page_list = if a == m.page_list then e₂ i else m.page_list;
              }));
        ne = ne;
        addr = ground arith;
        small = omega arith;
        linked =
            relinked-Linked f prev a next (a + page_size * k) xs
              (Linked-above m.mem f a next (a + page_size * k) xs o (λ j h. ground arith) l)
              (Ordered-Spaced (a + page_size * k) xs o) (omega arith);
        front = λ j h j'. ground arith;
        link = λ h. (ground arith, ground arith);
        first = λ h. ground arith;
      }

-- What the loop leaves: room as first fit gives it, or no change at all.
abbrev pub Fit : Machine → ℕ → Option (ℕ × Cells) → Run ℕ → Type 0
Fit m prev none run = run ≡ ok 0 m
Fit m prev (some (r, ys)) run = Reserved m prev r ys run

-- A chunk that is passed over stays as it is.
pass :
    (m : Machine) (prev a k lo : ℕ) (o : Option (ℕ × Cells)) (run : Run ℕ)
    → a ≢ 0
    → m.mem (prev_of a) ≡ prev
    → m.mem (pages_of a) ≡ k
    → prev + 24 ≤ a
    → At m prev a
    → Fit m a o run
    → Fit m prev (behind (a, k) o) run
pass m prev a k lo none run ne back size room at fit = fit
pass m prev a k lo (some (r, ys)) run ne back size room at fit = record {
  mem' = fit.mem';
  list' = fit.list';
  chunk = fit.chunk;
  head = a;
  runs = fit.runs;
  ne = fit.ne;
  addr = fit.addr;
  small = fit.small;
  linked = (
    refl,
    ne,
    ground (arith, fit.front (prev_of a)),
    ground (arith, fit.front (pages_of a)),
    Linked-from fit.mem' a a fit.head (fit.mem' (next_of a)) ys refl (fit.link ne).0 fit.linked,
  );
  front = λ j h j'. fit.front j (omega arith) (omega arith);
  link = λ h. (ground (arith, fit.front prev), (fit.link ne).1);
  first = λ h. ground (arith, fit.link ne);
}

pub reserve_loop-Fit :
    (fuel n prev p lo : ℕ) (xs : Cells) (m : Machine)
    → Linked m.mem prev p xs
    → Ordered lo xs
    → prev + 24 ≤ lo
    → At m prev p
    → length xs < fuel
    → Fit m prev (first_fit n xs) (reserve_loop fuel p n m)
unfolding reserve_loop first_fit
reserve_loop-Fit zero n prev p lo xs m l o room at enough = absurd (omega arith)
reserve_loop-Fit (suc fuel) n prev p lo [] m l o room at enough = rw l
reserve_loop-Fit (suc fuel) n prev p lo ((a, k) ∷ xs) m (e, ne, back, size, l) (above, pos, fits, o)
      room at enough =
    let at' : At m prev a = rw e at at in
    rw (e, ==_ne a 0 ne, load-ok (pages_of a) m (omega arith), size)
      (elim (Bool-cases (leb n k)) [
        | inl t ↦ rw t (elim (Bool-cases (k - n == 0)) [
          | inl z ↦ rw z (
              take_all m n prev a lo xs k (refl, ne, back, size, l) (above, pos, fits, o) room at'
                (leb→le n k t) z)
          | inr z ↦ rw z (
              take_some m n prev a lo xs k (refl, ne, back, size, l) (above, pos, fits, o) room at'
                (leb→le n k t) z)
        ])
        | inr t ↦
            rw (t, load-ok (next_of a) m ne)
              (pass m prev a k lo (first_fit n xs) (reserve_loop fuel (m.mem (next_of a)) n m) ne
                back size (omega arith) at'
                (reserve_loop-Fit fuel n a (m.mem (next_of a)) (a + page_size * k) xs m l o
                  (omega arith) (inr (ne, ground arith, refl)) (omega arith)))
      ])
