-- ===== src/PhysicalMemory/Chunks.antt =====
-- What the free list stands for: chunks in order of address, each with its number of pages, and
-- what first fit makes of such a list.
use xesual.Base.{
  ℕ, ◌+◌, ◌-◌, ◌*◌, ◌^◌, ◌<◌, ◌≤◌, ◌≡◌, ◌≢◌, ◌⊎◌, inl, inr, arith, List, [], ◌∷◌, Option, none,
  some, leb, ltb, ◌==◌, if◌then◌else◌,
}
use xesual.Address.{page_size}
use xesual.PhysicalMemory.{next_of, prev_of, pages_of}

-- Address and number of pages.
abbrev pub Cells : Type 0
Cells = List (ℕ × ℕ)

-- From `p` on the memory `f` holds the chunks `xs`, doubly linked; the first points back to `prev`.
abbrev pub Linked : (ℕ → ℕ) → (prev p : ℕ) → Cells → Type 0
Linked f prev p [] = p ≡ 0
Linked f prev p ((a, n) ∷ xs) =
    (p ≡ a)
    × (a ≢ 0)
    × (f (prev_of a) ≡ prev)
    × (f (pages_of a) ≡ n)
    × Linked f a (f (next_of a)) xs

-- The same, read forwards only.
abbrev pub Chain : (ℕ → ℕ) → ℕ → Cells → Type 0
Chain f p [] = p ≡ 0
Chain f p ((a, n) ∷ xs) = (p ≡ a) × (a ≢ 0) × (f (pages_of a) ≡ n) × Chain f (f (next_of a)) xs

-- The chunks lie at `lo` and above, one behind the other, each of a page at least, below 2 ^ 64.
abbrev pub Ordered : ℕ → Cells → Type 0
Ordered lo [] = Unit {0}
Ordered lo ((a, n) ∷ xs) =
    (lo ≤ a) × (0 < n) × (a + page_size * n < 2 ^ 64) × Ordered (a + page_size * n) xs

-- The pages that are free altogether.
unfoldable pub total_pages : Cells → ℕ
total_pages [] = 0
total_pages ((a, n) ∷ xs) = n + total_pages xs

-- The chunk that is passed over stays in front of what is left.
abbrev pub behind : ℕ × ℕ → Option (ℕ × Cells) → Option (ℕ × Cells)
behind c none = none
behind c (some (r, ys)) = some (r, c ∷ ys)

-- First fit: the address of `n` pages at the end of the first chunk that has as many, and what is
-- left.
unfoldable pub first_fit : ℕ → Cells → Option (ℕ × Cells)
first_fit n [] = none
first_fit n ((a, k) ∷ xs) =
    if leb n k
    then some (a + page_size * (k - n), if k - n == 0 then xs else (a, k - n) ∷ xs)
    else behind (a, k) (first_fit n xs)

-- `n` pages at `base` put in order of address.
unfoldable pub place : (base n : ℕ) → Cells → Cells
place base n [] = (base, n) ∷ []
place base n ((a, k) ∷ xs) =
    if ltb base a then (base, n) ∷ (a, k) ∷ xs else (a, k) ∷ place base n xs

-- `n` pages at `base` fit between the chunks, which begin at `lo`, and touch none of them.
abbrev pub Fits : (base n lo : ℕ) → Cells → Type 0
Fits base n lo [] = lo < base
Fits base n lo ((a, k) ∷ xs) =
    ((a ≤ base) × Fits base n (a + page_size * k) xs)
    ⊎ ((base < a) × (lo < base) × (base + page_size * n < a))

-- The chunks lie at `lo` and above, one behind the other, each with room for its fields.
abbrev pub Spaced : ℕ → Cells → Type 0
Spaced lo [] = Unit {0}
Spaced lo ((a, n) ∷ xs) = (lo ≤ a) × Spaced (a + 24) xs

Spaced-lower : (lo hi : ℕ) (xs : Cells) → lo ≤ hi → Spaced hi xs → Spaced lo xs
Spaced-lower lo hi [] h s = tt
Spaced-lower lo hi ((a, n) ∷ xs) h (above, s) = (omega arith, s)

pub Ordered-Spaced : (lo : ℕ) (xs : Cells) → Ordered lo xs → Spaced lo xs
Ordered-Spaced lo [] o = tt
Ordered-Spaced lo ((a, n) ∷ xs) (above, pos, fits, o) = (
  above,
  Spaced-lower (a + 24) (a + page_size * n) xs (omega arith)
      (Ordered-Spaced (a + page_size * n) xs o),
)

-- A list survives any change below it.
pub Linked-Spaced :
    (f g : ℕ → ℕ) (prev p lo : ℕ) (xs : Cells)
    → Spaced lo xs
    → ((k : ℕ) → lo ≤ k → g k ≡ f k)
    → Linked f prev p xs
    → Linked g prev p xs
Linked-Spaced f g prev p lo [] s same l = l
Linked-Spaced f g prev p lo ((a, n) ∷ xs) (above, s) same (e, ne, back, size, l) = (
  e,
  ne,
  ground (arith, same (prev_of a)),
  ground (arith, same (pages_of a)),
  rw (same (next_of a) above)
      (Linked-Spaced f g a (f (next_of a)) (a + 24) xs s (λ k h. same k (omega arith)) l),
)

pub Linked-above :
    (f g : ℕ → ℕ) (prev p lo : ℕ) (xs : Cells)
    → Ordered lo xs
    → ((k : ℕ) → lo ≤ k → g k ≡ f k)
    → Linked f prev p xs
    → Linked g prev p xs
Linked-above f g prev p lo xs o = Linked-Spaced f g prev p lo xs (Ordered-Spaced lo xs o)

-- A doubly linked list is a chain.
pub Linked-Chain : (f : ℕ → ℕ) (prev p : ℕ) (xs : Cells) → Linked f prev p xs → Chain f p xs
Linked-Chain f prev p [] l = l
Linked-Chain f prev p ((a, n) ∷ xs) (e, ne, back, size, l) =
    (e, ne, size, Linked-Chain f a (f (next_of a)) xs l)

pub Linked-from :
    (f : ℕ → ℕ) (prev prev' p q : ℕ) (xs : Cells)
    → prev' ≡ prev
    → q ≡ p
    → Linked f prev p xs
    → Linked f prev' q xs
Linked-from f prev prev' p q xs d e l = rw (d, e) l

-- A list begins at `lo` or above, or is empty.
pub head-Spaced :
    (f : ℕ → ℕ) (prev p lo : ℕ) (xs : Cells)
    → Linked f prev p xs
    → Spaced lo xs
    → (p ≡ 0) ⊎ (lo ≤ p)
head-Spaced f prev p lo [] l s = inl l
head-Spaced f prev p lo ((a, n) ∷ xs) (e, ne, back, size, l) (above, s) = inr (omega arith)

pub head-above :
    (f : ℕ → ℕ) (prev p lo : ℕ) (xs : Cells)
    → Linked f prev p xs
    → Ordered lo xs
    → (p ≡ 0) ⊎ (lo ≤ p)
head-above f prev p lo xs l o = head-Spaced f prev p lo xs l (Ordered-Spaced lo xs o)
