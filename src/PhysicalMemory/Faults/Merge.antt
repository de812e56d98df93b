-- ===== src/PhysicalMemory/Faults/Merge.antt =====
-- `freePages` of pages right behind a chunk: the chunk grows, and the new one stays in the list.
use mathlib.Core.Path.{subst}
use xesual.Base.{
  ℕ, suc, ◌+◌, ◌*◌, ◌^◌, ◌<◌, ◌≤◌, ◌≡◌, ◌≢◌, ◌⊎◌, inl, inr, refl, ap, sym, ◌∙◌, fun_ext, arith, [],
  ◌∷◌, true, ◌==◌, lt→ltb, ==_ne, u64,
}
use xesual.Machine.{Machine, Run, ok, update}
use xesual.Machine.Memory.{memset, cleared, load-ok, store-ok}
use xesual.Address.{page_size}
use xesual.PhysicalMemory.{next_of, prev_of, pages_of, find_place, insert, link_prev, free_pages}
use xesual.PhysicalMemory.Chunks.{
  Cells, Linked, Chain, Ordered, Linked-above, Linked-from, Linked-Chain, head-above,
}
use xesual.PhysicalMemory.Access.{Ready, Holds, ListAt, along, Usable-pages, enter, leave}
use xesual.PhysicalMemory.Free.{prepared, past_head}
use xesual.PhysicalMemory.Free.Links.{forward, backward, link_next-apart}

-- The chunk in front ends where the new one begins, and takes its pages.
link_prev-touch :
    (self n prev k : ℕ) (m : Machine)
    → prev ≢ 0
    → self ≡ prev + page_size * k
    → prev + page_size * k < 2 ^ 64
    → 0 < k
    → m.mem (pages_of prev) ≡ k
    → link_prev self n prev m
      ≡ ok tt (record m { mem = update (backward m.mem self prev) (pages_of prev) (u64 (k + n)) })
unfolding link_prev
link_prev-touch self n prev k m ne e fits pos size =
    let m₁ : Machine = record m { mem = update m.mem (prev_of self) prev } in
    let m₂ : Machine = record m { mem = update m₁.mem prev self } in
    let size' : m₂.mem (pages_of prev) ≡ k = ground arith in
    let touch : (u64 (prev + u64 (page_size * k)) == self) ≡ true = ground arith in
    rw
      (
        store-ok (prev_of self) prev m (omega arith),
        ==_ne prev 0 ne,
        store-ok prev self m₁ ne,
        load-ok (pages_of prev) m₂ (omega arith),
        size',
        touch,
        store-ok (pages_of prev) (u64 (k + n)) m₂ (omega arith),
      )
      (ap (λ g. ok tt (record m { mem = g })) (fun_ext λ j. ground arith))

abbrev merged : (ℕ → ℕ) → (a base next total : ℕ) → ℕ → ℕ
merged f a base next total = update (backward (forward f base next) base a) (pages_of a) total

-- The walk from the chunk in front, and both links.
insert-touch :
    (fuel a k n p : ℕ) (m : Machine)
    → a ≢ 0
    → 0 < k
    → m.mem (pages_of a) ≡ k
    → a + page_size * k + page_size * n < 2 ^ 64
    → (p ≡ 0) ⊎ (a + page_size * k + page_size * n < p)
    → insert (suc fuel) a p (a + page_size * k) n m
      ≡ ok tt (record m { mem = merged m.mem a (a + page_size * k) p (u64 (k + n)) })
unfolding insert find_place
insert-touch fuel a k n p m ne pos size fits gap =
    let base = a + page_size * k in
    let m₁ : Machine = record m { mem = forward m.mem base p } in
    let size' : m₁.mem (pages_of a) ≡ k = ground arith in
    let links = link_next-apart base n p m (omega arith) fits gap in
    let links' = link_prev-touch base n a k m₁ ne refl (omega arith) pos size' in
    elim gap [
      | inl z ↦ (let none_behind : (p == 0) ≡ true = ground arith in rw (none_behind, links) links')
      | inr far ↦ rw (==_ne p 0 (omega arith), lt→ltb base p (omega arith), links) links'
    ]

-- A chain survives a change of its first chunk's pointer back.
pub Chain-spared :
    (f g : ℕ → ℕ) (prev p lo : ℕ) (xs : Cells)
    → Ordered lo xs
    → ((j : ℕ) → lo ≤ j → j ≢ prev_of p → g j ≡ f j)
    → Linked f prev p xs
    → Chain g p xs
Chain-spared f g prev p lo [] o same l = l
Chain-spared f g prev p lo ((b, k) ∷ xs) (above, pos, fits, o) same (e, ne, back, size, l) = (
  e,
  ne,
  ground (arith, same (pages_of b)),
  subst (λ q. Chain g q xs) (sym (same (next_of b) above (omega arith)))
      (Linked-Chain g b (f (next_of b)) xs (
        Linked-above f g b (f (next_of b)) (b + page_size * k) xs o
          (λ j h. same j (omega arith) (omega arith)) l)),
)

-- A run that ends with the pages at `base` in two chunks of the list.
pub record Doubles (a k base n : ℕ) (xs : Cells) (run : Run (Unit {0})) : Type 0 where
  pub after : Machine
  pub runs : run ≡ ok tt after
  pub chain : Chain after.mem after.page_list ((a, k + n) ∷ (base, n) ∷ xs)
  pub back : after.mem (prev_of base) ≡ a
  pub gap : (after.mem (next_of base) ≡ 0) ⊎ (base + page_size * n < after.mem (next_of base))
  pub ready : Ready after

abbrev pub Doubled : (a k base n : ℕ) → Cells → (ℕ → ℕ) → ℕ → Type 0
Doubled a k base n xs f p =
    Chain f p ((a, k + n) ∷ (base, n) ∷ xs)
    × (f (prev_of base) ≡ a)
    × ((f (next_of base) ≡ 0) ⊎ (base + page_size * n < f (next_of base)))

module _ (f : ℕ → ℕ) (a k n p q total : ℕ) (xs : Cells) where
  abbrev end : ℕ
  end = a + page_size * k

  abbrev mem' : ℕ → ℕ
  mem' = merged f a end q total

  merged-Doubled :
      p ≡ a
      → a ≢ 0
      → 0 < k
      → 0 < n
      → f (pages_of end) ≡ n
      → total ≡ k + n
      → (q ≡ 0) ⊎ (end + page_size * n < q)
      → Ordered (suc (end + page_size * n)) xs
      → Linked f a q xs
      → Doubled a k end n xs mem' p
  merged-Doubled e ne pos many size sum gap o l =
      let here : mem' (next_of end) ≡ q = ground arith in
      (
        (
          e,
          ne,
          ground arith,
          (
            ground arith,
            omega arith,
            ground arith,
            subst (λ r. Chain mem' r xs) (sym here)
                (Chain-spared f mem' a q (suc (end + page_size * n)) xs o (λ j h h'. ground arith)
                  l),
          ),
        ),
        ground arith,
        elim gap [ inl z ↦ inl (here ∙ z) | inr h ↦ inr (omega arith) ],
      )

-- `freePages` of pages right behind the first chunk: the chunk grows by them, and they stay in the
-- list as a chunk of their own, so that the list holds them twice.
pub free_pages-overlap :
    (fuel n a k lo : ℕ) (xs : Cells) (m : Machine)
    → Holds m ((a, k) ∷ xs)
    → Ordered lo ((a, k) ∷ xs)
    → Ordered (suc (a + page_size * k + page_size * n)) xs
    → 0 < n
    → a + page_size * k + page_size * n < 2 ^ 64
    → Doubles a k (a + page_size * k) n xs (free_pages (suc (suc fuel)) (a + page_size * k) n m)
unfolding free_pages memset
free_pages-overlap fuel n a k lo xs m holds (above, some_pages, low, o) o' many small =
    let e = enter m holds.ready in
    let f = e.inside.mem in
    let base = a + page_size * k in
    let f' = prepared f base n in
    let (p, ne, back, size, l) = along (ListAt ((a, k) ∷ xs)) e.same holds.linked in
    let m₁ : Machine = record e.inside { mem = f' } in
    let next : f' (next_of a) ≡ f (next_of a) = ground arith in
    let gap : (f' (next_of a) ≡ 0) ⊎ (base + page_size * n < f' (next_of a)) =
      elim (head-above f a (f (next_of a)) (suc (base + page_size * n)) xs l o') [
        | inl z ↦ inl (next ∙ z)
        | inr h ↦ inr (omega arith)
      ] in
    let size' : f' (pages_of a) ≡ k = ground arith in
    let total : u64 (k + n) ≡ k + n = omega arith in
    let g = merged f' a base (f' (next_of a)) (u64 (k + n)) in
    let w = leave (record m₁ { mem = g }) (Usable-pages e.inside g e.inside.page_list e.usable) in
    let whole : u64 (page_size * n) ≡ page_size * n = omega arith in
    let l' = Linked-from f' a a (f (next_of a)) (f' (next_of a)) xs refl next (
      Linked-above f f' a (f (next_of a)) (suc (base + page_size * n)) xs o' (λ j h. ground arith)
        l) in
    let d = along (Doubled a k base n xs) w.same (
      merged-Doubled f' a k n e.inside.page_list (f' (next_of a)) (u64 (k + n)) xs p ne some_pages
        many (ground arith) total gap o' l') in
    record {
      after = w.outside;
      runs = rw (
        e.runs,
        whole,
        store-ok (pages_of base) n (record e.inside { mem = cleared f base (page_size * n) })
            (omega arith),
        past_head (suc fuel) base n e.inside.page_list a m₁ p ne (omega arith)
            ∙ insert-touch fuel a k n (f' (next_of a)) m₁ ne some_pages size' small gap,
        w.runs,
      );
      chain = d.0;
      back = d.1;
      gap = d.2;
      ready = w.ready;
    }
