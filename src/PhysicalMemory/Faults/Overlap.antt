-- ===== src/PhysicalMemory/Faults/Overlap.antt =====
-- Pages that stand in the list twice are given out twice.
use xesual.Base.{
  ℕ, suc, ◌+◌, ◌-◌, ◌*◌, ◌^◌, ◌<◌, ◌≡◌, ◌≢◌, ◌⊎◌, inl, inr, refl, ap, ◌∙◌, arith, ◌∷◌,
}
use xesual.Machine.{Machine, ok, update}
use xesual.Address.{page_size}
use xesual.PhysicalMemory.{next_of, prev_of, pages_of, free_pages, allocate_pages}
use xesual.PhysicalMemory.Chunks.{Cells, Ordered}
use xesual.PhysicalMemory.Access.{Ready, Holds, enter}
use xesual.PhysicalMemory.Allocate.Walk.Unlink.{unlinked}
use xesual.PhysicalMemory.Faults.Head.{exhaust, shrink, pass_over, took, address_in-left}
use xesual.PhysicalMemory.Faults.Merge.{Doubled, free_pages-overlap}

-- Two allocations in a row that return the same address.
pub record Twice (fuel n r : ℕ) (m : Machine) : Type 0 where
  pub first : Machine
  pub first_runs : allocate_pages fuel n m ≡ ok r first
  pub second : Machine
  pub second_runs : allocate_pages fuel n first ≡ ok r second

kept_word : (f : ℕ → ℕ) (p v j : ℕ) → j ≢ p → update f p v j ≡ f j
kept_word f p v j h = ground arith

new_word : (f : ℕ → ℕ) (p v : ℕ) → update f p v p ≡ v
new_word f p v = ground arith

-- The pages that are left in a chunk that has left the list.
left_none :
    (f : ℕ → ℕ) (base n : ℕ) (m : Machine)
    → f (prev_of base) < base
    → 0 < n
    → (f (next_of base) ≡ 0) ⊎ (base + page_size * n < f (next_of base))
    → (unlinked base (record m { mem = update f (pages_of base) 0 })).mem (pages_of base) ≡ 0
left_none f base n m below many gap = ground arith

module _ (fuel n a k : ℕ) (xs : Cells) (ne : a ≢ 0) (pos : 0 < k) (less : k < n)
    (fits : a + page_size * k < 2 ^ 64) where
  abbrev base : ℕ
  base = a + page_size * k

  -- The first allocation takes its pages from the end of the chunk in front, the second takes the
  -- chunk that has been in the list all the time.
  second_allocation :
      (m : Machine)
      → Ready m
      → m.page_list ≡ a
      → m.mem (next_of a) ≡ base
      → m.mem (pages_of a) ≡ k
      → m.mem (pages_of base) ≡ n
      → m.mem (prev_of base) ≡ a
      → (m.mem (next_of base) ≡ 0) ⊎ (base + page_size * n < m.mem (next_of base))
      → (m' : Machine) × (allocate_pages (suc (suc fuel)) n m ≡ ok base m')
  unfolding allocate_pages
  second_allocation m w p next size size' back gap =
      let e = enter m w in
      let f = e.inside.mem in
      let next' : f (next_of a) ≡ base = ap (λ g. g (next_of a)) e.same.mem ∙ next in
      let s : f (pages_of a) ≡ k = ap (λ g. g (pages_of a)) e.same.mem ∙ size in
      let s' : f (pages_of base) ≡ n = ap (λ g. g (pages_of base)) e.same.mem ∙ size' in
      let b : f (prev_of base) ≡ a = ap (λ g. g (prev_of base)) e.same.mem ∙ back in
      let q : f (next_of base) ≡ m.mem (next_of base) = ap (λ g. g (next_of base)) e.same.mem in
      let gap' : (f (next_of base) ≡ 0) ⊎ (base + page_size * n < f (next_of base)) = elim gap [
        | inl z ↦ inl (q ∙ z)
        | inr h ↦ inr (omega arith)
      ] in
      let u = unlinked base (record e.inside { mem = update f (pages_of base) 0 }) in
      let t = took (suc (suc fuel)) n base u.page_list u.mem m e (
        pass_over (suc fuel) n e.inside.page_list a k e.inside (e.same.list ∙ p) ne s less
        ∙ exhaust fuel n (f (next_of a)) base e.inside next' (omega arith) s') in
      let none_left : u.mem (pages_of base) ≡ 0 =
        left_none f base n e.inside (omega arith) (omega arith) gap' in
      (
        t.after,
        rw t.runs (
            address_in-left base 0 base t.after (omega arith)
              (ap (λ g. g (pages_of base)) t.mem ∙ none_left) (omega arith) fits),
      )

  first_allocation :
      (m : Machine)
      → Ready m
      → Doubled a k base n xs m.mem m.page_list
      → Twice (suc (suc fuel)) n base m
  unfolding allocate_pages
  first_allocation m w ((p, ne', size, (next, ne'', size', rest)), back, gap) =
      let e = enter m w in
      let f = update e.inside.mem (pages_of a) k in
      let s : e.inside.mem (pages_of a) ≡ k + n = ap (λ g. g (pages_of a)) e.same.mem ∙ size in
      let left : k + n - n ≡ k = omega arith in
      let t = took (suc (suc fuel)) n a e.inside.page_list f m e (
        shrink (suc fuel) n e.inside.page_list a (k + n) e.inside (e.same.list ∙ p) ne s
          (omega arith)
        ∙ ap (λ (l : ℕ). ok a (record e.inside { mem = update e.inside.mem (pages_of a) l }))
            left) in
      let kept : (j : ℕ) → j ≢ pages_of a → t.after.mem j ≡ m.mem j = λ j h.
        ap (λ g. g j) t.mem
        ∙ kept_word e.inside.mem (pages_of a) k j h
        ∙ ap (λ g. g j) e.same.mem in
      let here : t.after.mem (pages_of a) ≡ k =
        ap (λ g. g (pages_of a)) t.mem ∙ new_word e.inside.mem (pages_of a) k in
      let gap' : (t.after.mem (next_of base) ≡ 0)
          ⊎ (base + page_size * n < t.after.mem (next_of base)) =
        elim gap [
          | inl z ↦ inl (kept (next_of base) (omega arith) ∙ z)
          | inr h ↦ inr (omega (arith, kept (next_of base) (omega arith)))
        ] in
      let (m', runs') =
        second_allocation t.after t.ready (t.list ∙ e.same.list ∙ p)
          (kept (next_of a) (omega arith) ∙ next) here (kept (pages_of base) (omega arith) ∙ size')
          (kept (prev_of base) (omega arith) ∙ back) gap' in
      record {
        first = t.after;
        first_runs = rw t.runs (address_in-left a k base t.after ne here refl fits);
        second = m';
        second_runs = runs';
      }

-- After `freePages` of `n` pages right behind the first chunk, which has fewer, two allocations of
-- `n` pages in a row both return the address of those pages.
pub free_pages-double_allocation :
    (fuel n a k lo : ℕ) (xs : Cells) (m : Machine)
    → Holds m ((a, k) ∷ xs)
    → Ordered lo ((a, k) ∷ xs)
    → Ordered (suc (a + page_size * k + page_size * n)) xs
    → k < n
    → a + page_size * k + page_size * n < 2 ^ 64
    → (m' : Machine) × (free_pages (suc (suc fuel)) (a + page_size * k) n m ≡ ok tt m')
      × Twice (suc (suc fuel)) n (a + page_size * k) m'
free_pages-double_allocation fuel n a k lo xs m holds o o' less small =
    let d = free_pages-overlap fuel n a k lo xs m holds o o' (omega arith) small in
    (
      d.after,
      d.runs,
      first_allocation fuel n a k xs d.chain.1 o.1 less (omega arith) d.after d.ready
          (d.chain, d.back, d.gap),
    )
