-- ===== src/PhysicalMemory/Free/Walk.antt =====
-- `freePages` between two chunks: the walk to the place, and the list that the links make.
use xesual.Base.{
  ℕ, zero, suc, ◌+◌, ◌*◌, ◌^◌, ◌<◌, ◌≤◌, ◌≡◌, ◌≢◌, ◌⊎◌, inl, inr, refl, ap, ◌∙◌, arith, [], ◌∷◌,
  lt→ltb, le→ltb, ==_ne, length,
}
use xesual.Machine.{Machine, Run, ok, ◌>>◌}
use xesual.Machine.Memory.{load-ok}
use xesual.Address.{page_size}
use xesual.PhysicalMemory.{next_of, prev_of, pages_of, link_next, link_prev, find_place, insert}
use xesual.PhysicalMemory.Chunks.{Cells, Linked, Ordered, place, Fits, Linked-above, Linked-from}
use xesual.PhysicalMemory.Free.Links.{forward, backward, link_next-apart, link_prev-apart}

-- What the walk and the links leave, from the chunk behind `prev` on.
pub record Inserted (m : Machine) (prev : ℕ) (ys : Cells) (run : Run (Unit {0})) : Type 0 where
  pub mem' : ℕ → ℕ
  pub head : ℕ
  pub runs : run ≡ ok tt (record m { mem = mem' })
  pub linked : Linked mem' prev head ys
  pub front : (k : ℕ) → k < prev + 24 → k ≢ prev → mem' k ≡ m.mem k
  pub link : mem' (next_of prev) ≡ head

abbrev joined : (ℕ → ℕ) → (prev base next : ℕ) → ℕ → ℕ
joined f prev base next = backward (forward f base next) base prev

-- The chunks behind the new one point back to it.
joined-Linked :
    (f : ℕ → ℕ) (prev base n p : ℕ) (xs : Cells)
    → prev + 24 ≤ base
    → 0 < n
    → Ordered (base + page_size * n) xs
    → Linked f prev p xs
    → Linked (joined f prev base p) base p xs
joined-Linked f prev base n p [] room pos o l = l
joined-Linked f prev base n p ((b, k) ∷ xs) room pos (above, some_pages, fits, o)
      (e, ne, back, size, l) =
    let g = joined f prev base p in
    (
      e,
      ne,
      ground arith,
      ground arith,
      Linked-from g b b (f b) (g b) xs refl (ground arith)
          (Linked-above f g b (f b) (b + page_size * k) xs o (λ j h. ground arith) l),
    )

module _ (m : Machine) (base n : ℕ) (pos : 0 < n) (small : base + page_size * n < 2 ^ 64)
    (size : m.mem (pages_of base) ≡ n) where
  -- The links at the place that the walk has found.
  at_gap :
      (prev p : ℕ) (xs : Cells)
      → prev ≢ 0
      → Linked m.mem prev p xs
      → Ordered (base + page_size * n) xs
      → (p ≡ 0) ⊎ (base + page_size * n < p)
      → prev + 24 ≤ base
      → prev + page_size * m.mem (pages_of prev) < base
      → Inserted m prev ((base, n) ∷ xs) ((link_next base n p >> link_prev base n prev) m)
  at_gap prev p xs ne l o gap room behind =
      let m₁ : Machine = record m { mem = forward m.mem base p } in
      let same : m₁.mem (pages_of prev) ≡ m.mem (pages_of prev) = ground arith in
      record {
        mem' = joined m.mem prev base p;
        head = base;
        runs =
            rw (link_next-apart base n p m (omega arith) small gap)
              (link_prev-apart base n prev m₁ (omega arith) ne (omega arith) room (omega arith));
        linked = (
          refl,
          omega arith,
          ground arith,
          ground arith,
          Linked-from (joined m.mem prev base p) base base p (joined m.mem prev base p base) xs refl
              (ground arith) (joined-Linked m.mem prev base n p xs room pos o l),
        );
        front = λ j h j'. ground arith;
        link = ground arith;
      }

  pass :
      (prev a k lo : ℕ) (ys : Cells) (run : Run (Unit {0}))
      → a ≢ 0
      → m.mem (prev_of a) ≡ prev
      → m.mem (pages_of a) ≡ k
      → m.mem (next_of prev) ≡ a
      → prev + 24 ≤ a
      → Inserted m a ys run
      → Inserted m prev ((a, k) ∷ ys) run
  pass prev a k lo ys run ne back size e room i = record {
    mem' = i.mem';
    head = a;
    runs = i.runs;
    linked = (
      refl,
      ne,
      ground (arith, i.front (prev_of a)),
      ground (arith, i.front (pages_of a)),
      Linked-from i.mem' a a i.head (i.mem' (next_of a)) ys refl i.link i.linked,
    );
    front = λ j h j'. i.front j (omega arith) (omega arith);
    link = ground (arith, i.front prev);
  }

  -- From the chunk behind `prev` on, the walk and the links put the new chunk in its place.
  pub insert-place :
      (fuel prev p lo : ℕ) (xs : Cells)
      → prev ≢ 0
      → Linked m.mem prev p xs
      → Ordered lo xs
      → Fits base n lo xs
      → prev + 24 ≤ lo
      → prev + page_size * m.mem (pages_of prev) ≡ lo
      → m.mem (next_of prev) ≡ p
      → length xs < fuel
      → Inserted m prev (place base n xs) (insert fuel prev p base n m)
  unfolding insert find_place place
  insert-place zero prev p lo xs ne l o fits room end e enough = absurd (omega arith)
  insert-place (suc fuel) prev p lo [] ne l o fits room end e enough =
      rw l (at_gap prev 0 [] ne refl tt (inl refl) (omega arith) (omega arith))
  insert-place (suc fuel) prev p lo ((a, k) ∷ xs) ne (e', ne', back, size', l)
        (above, some_pages, low, o) (inr (below, gap, apart)) room end e enough =
      rw (e', ==_ne a 0 ne', lt→ltb base a below)
        (at_gap prev a ((a, k) ∷ xs) ne (refl, ne', back, size', l)
          (omega arith, some_pages, low, o) (inr apart) (omega arith) (omega arith))
  insert-place (suc fuel) prev p lo ((a, k) ∷ xs) ne (e', ne', back, size', l)
        (above, some_pages, low, o) (inl (below, fits)) room end e enough =
      rw (e', ==_ne a 0 ne', le→ltb base a below, load-ok (next_of a) m ne')
        (pass prev a k lo (place base n xs) (insert fuel a (m.mem (next_of a)) base n m) ne' back
          size' (e ∙ e') (omega arith)
          (insert-place fuel a (m.mem (next_of a)) (a + page_size * k) xs ne' l o fits (omega arith)
            (ap (λ t. a + page_size * t) size') refl (omega arith)))
