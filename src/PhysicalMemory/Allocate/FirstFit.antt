-- ===== src/PhysicalMemory/Allocate/FirstFit.antt =====
-- What first fit promises: the pages that it gives were free, are free no longer, and lie apart
-- from the chunks that are left.
use xesual.Base.{
  ℕ, ◌+◌, ◌-◌, ◌*◌, ◌^◌, ◌<◌, ◌≤◌, ◌≡◌, ◌⊎◌, inl, inr, arith, [], ◌∷◌, Option, none, some, leb,
  ◌==◌, Bool-cases, All,
}
use xesual.Address.{page_size}
use xesual.PhysicalMemory.Chunks.{Cells, Ordered, total_pages, behind, first_fit}

-- `n` pages at `r` share no byte with a chunk.
abbrev pub Apart : (r n : ℕ) → ℕ × ℕ → Type 0
Apart r n (a, k) = (a + page_size * k ≤ r) ⊎ (r + page_size * n ≤ a)

-- The `n` pages at `r` are part of one of the chunks.
abbrev pub Within : (r n : ℕ) → Cells → Type 0
Within r n [] = ⊥
Within r n ((a, k) ∷ xs) = ((a ≤ r) × (r + page_size * n ≤ a + page_size * k)) ⊎ Within r n xs

-- What is promised of a result on a list that begins at `lo`: where there is room, the pages come
-- from one chunk, lie apart from all that is left, which is in order, and are counted; where there
-- is none, no chunk is large enough.
abbrev pub Sound : (lo n : ℕ) → Cells → Option (ℕ × Cells) → Type 0
Sound lo n xs none = All (λ (a, k). k < n) xs
Sound lo n xs (some (r, ys)) =
    Within r n xs
    × (lo ≤ r)
    × All (Apart r n) ys
    × Ordered lo ys
    × (total_pages ys + n ≡ total_pages xs)

All-below : (r n lo : ℕ) (xs : Cells) → r + page_size * n ≤ lo → Ordered lo xs → All (Apart r n) xs
All-below r n lo [] h o = tt
All-below r n lo ((a, k) ∷ xs) h (above, pos, fits, o) =
    (inr (omega arith), All-below r n (a + page_size * k) xs (omega arith) o)

Ordered-lower : (lo hi : ℕ) (xs : Cells) → lo ≤ hi → Ordered hi xs → Ordered lo xs
Ordered-lower lo hi [] h o = tt
Ordered-lower lo hi ((a, k) ∷ xs) h (above, pos, fits, o) = (omega arith, pos, fits, o)

pass-Sound :
    (lo n a k : ℕ) (xs : Cells) (o : Option (ℕ × Cells))
    → k < n
    → lo ≤ a
    → 0 < k
    → a + page_size * k < 2 ^ 64
    → Sound (a + page_size * k) n xs o
    → Sound lo n ((a, k) ∷ xs) (behind (a, k) o)
unfolding total_pages
pass-Sound lo n a k xs none small above pos fits s = (small, s)
pass-Sound lo n a k xs (some (r, ys)) small above pos fits (within, low, apart, o, sum) =
    (inr within, omega arith, (inl low, apart), (above, pos, fits, o), omega arith)

-- First fit keeps these promises on every list of chunks in order.
pub first_fit-Sound :
    (n lo : ℕ) (xs : Cells) → 0 < n → Ordered lo xs → Sound lo n xs (first_fit n xs)
unfolding first_fit total_pages
first_fit-Sound n lo [] some_pages o = tt
first_fit-Sound n lo ((a, k) ∷ xs) some_pages (above, pos, fits, o) = elim (Bool-cases (leb n k)) [
  | inl t ↦ rw t (elim (Bool-cases (k - n == 0)) [
    | inl z ↦ rw z (
      inl (omega arith, ground arith),
      omega arith,
      All-below (a + page_size * (k - n)) n (a + page_size * k) xs (ground arith) o,
      Ordered-lower lo (a + page_size * k) xs (omega arith) o,
      ground arith,
    )
    | inr z ↦ rw z (
      inl (omega arith, ground arith),
      omega arith,
      (
        inl (ground arith),
        All-below (a + page_size * (k - n)) n (a + page_size * k) xs (ground arith) o,
      ),
      (
        above,
        ground arith,
        omega arith,
        Ordered-lower (a + page_size * (k - n)) (a + page_size * k) xs (omega arith) o,
      ),
      ground arith,
    )
  ])
  | inr t ↦ rw t (
      pass-Sound lo n a k xs (first_fit n xs) (ground arith) above pos fits
        (first_fit-Sound n (a + page_size * k) xs some_pages o))
]
