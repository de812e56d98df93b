-- ===== src/PhysicalMemory/Free/Place.antt =====
-- Pages put in order of address between the chunks of a list.
use xesual.Base.{
  ℕ, ◌+◌, ◌*◌, ◌^◌, ◌<◌, ◌≤◌, ◌≡◌, ◌⊎◌, inl, inr, refl, ◌∙◌, arith, [], ◌∷◌, lt→ltb, le→ltb,
}
use xesual.Address.{page_size}
use xesual.PhysicalMemory.{prev_of, pages_of}
use xesual.PhysicalMemory.Chunks.{
  Cells, Linked, Ordered, place, Fits, total_pages, Linked-above, Linked-from,
}

Fits-below : (base n lo : ℕ) (xs : Cells) → Ordered lo xs → Fits base n lo xs → lo < base
Fits-below base n lo [] o h = h
Fits-below base n lo ((a, k) ∷ xs) (above, pos, fits, o) (inl (below, h)) =
    omega (arith, Fits-below base n (a + page_size * k) xs o h)
Fits-below base n lo ((a, k) ∷ xs) o (inr (below, gap, apart)) = gap

-- A list survives any change to the pages that are put between its chunks.
pub Linked-around :
    (f g : ℕ → ℕ) (base n prev p lo : ℕ) (xs : Cells)
    → 0 < n
    → ((j : ℕ) → (j < base) ⊎ (base + page_size * n ≤ j) → g j ≡ f j)
    → Ordered lo xs
    → Fits base n lo xs
    → Linked f prev p xs
    → Linked g prev p xs
Linked-around f g base n prev p lo [] pos same o h l = l
Linked-around f g base n prev p lo ((a, k) ∷ xs) pos same (above, some_pages, low, o)
      (inl (below, h)) (e, ne, back, size, l) =
    let end = Fits-below base n (a + page_size * k) xs o h in
    (
      e,
      ne,
      same (prev_of a) (inl (omega arith)) ∙ back,
      same (pages_of a) (inl (omega arith)) ∙ size,
      Linked-from g a a (f a) (g a) xs refl (same a (inl (omega arith)))
          (Linked-around f g base n a (f a) (a + page_size * k) xs pos same o h l),
    )
Linked-around f g base n prev p lo ((a, k) ∷ xs) pos same o (inr (below, gap, apart)) l =
    Linked-above f g prev p a ((a, k) ∷ xs) (omega arith, o.1, o.2, o.3)
      (λ j h. same j (inr (omega arith))) l

-- Nothing lost: what `freePages` promises of the list that is left.
pub place-Ordered :
    (base n lo : ℕ) (xs : Cells)
    → 0 < n
    → base + page_size * n < 2 ^ 64
    → Ordered lo xs
    → Fits base n lo xs
    → Ordered lo (place base n xs)
unfolding place
place-Ordered base n lo [] pos small o h = (omega arith, pos, small, tt)
place-Ordered base n lo ((a, k) ∷ xs) pos small (above, some_pages, low, o) (inl (below, h)) =
    rw (le→ltb base a below)
      (above, some_pages, low, place-Ordered base n (a + page_size * k) xs pos small o h)
place-Ordered base n lo ((a, k) ∷ xs) pos small (above, some_pages, low, o)
      (inr (below, gap, apart)) =
    rw (lt→ltb base a below) (omega arith, pos, small, (omega arith, some_pages, low, o))

pub total_pages-place :
    (base n : ℕ) (xs : Cells) → total_pages (place base n xs) ≡ n + total_pages xs
unfolding place total_pages
total_pages-place base n [] = refl
total_pages-place base n ((a, k) ∷ xs) = ground (arith, total_pages-place base n xs)
