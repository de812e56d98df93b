-- ===== src/PhysicalMemory/Pool.antt =====
-- What the page allocator promises its callers: pages in use never overlap, neither one another nor
-- the free chunks, over any sequence of requests.
pub mod Safe
pub mod Session
use xesual.Base.{
  ℕ, zero, suc, ◌+◌, ◌*◌, ◌^◌, ◌<◌, ◌≤◌, List, [], ◌∷◌, Option, none, some, get_elem?, All,
}
use xesual.Address.{page_size}
use xesual.PhysicalMemory.Chunks.{Cells, Ordered, Fits, first_fit, place}
use xesual.PhysicalMemory.Allocate.FirstFit.{Apart}

-- The chunks that are free, and the runs of pages in use, the last one given out in front.
pub record Pool : Type 0 where
  pub free : Cells
  pub used : Cells

-- A number of pages is wanted, or the run at an index of those in use is given back.
pub data Request : Type 0 where
  take give : ℕ → Request

abbrev pub drop_at {ℓ} : {A : Type ℓ} → ℕ → List A → List A
drop_at i [] = []
drop_at zero (x ∷ xs) = xs
drop_at (suc i) (x ∷ xs) = x ∷ drop_at i xs

abbrev pub taken : ℕ → Pool → Option (ℕ × Cells) → Pool
taken n p none = p
taken n p (some (r, ys)) = record { free = ys; used = (r, n) ∷ p.used }

abbrev pub given : ℕ → Pool → Option (ℕ × ℕ) → Pool
given i p none = p
given i p (some (r, n)) = record { free = place r n p.free; used = drop_at i p.used }

abbrev pub serve : Request → Pool → Pool
serve (take n) p = taken n p (first_fit n p.free)
serve (give i) p = given i p (get_elem? p.used i)

abbrev pub serve_all : List Request → Pool → Pool
serve_all [] p = p
serve_all (q ∷ qs) p = serve_all qs (serve q p)

-- Pages that `freePages` puts in their place: nothing is free, or they lie above the first chunk and
-- touch no chunk.
abbrev pub Placeable : (r n : ℕ) → Cells → Type 0
Placeable r n [] = Unit
Placeable r n ((a, k) ∷ xs) = (a ≤ r) × Fits r n (a + page_size * k) xs

abbrev pub IsPlaceable : Cells → Option (ℕ × ℕ) → Type 0
IsPlaceable xs none = ⊥
IsPlaceable xs (some (r, n)) = Placeable r n xs

abbrev pub Allowed : Request → Pool → Type 0
Allowed (take n) p = 0 < n
Allowed (give i) p = IsPlaceable p.free (get_elem? p.used i)

-- Each request is allowed when its turn comes.
abbrev pub AllAllowed : List Request → Pool → Type 0
AllAllowed [] p = Unit
AllAllowed (q ∷ qs) p = Allowed q p × AllAllowed qs (serve q p)

abbrev pub InRange : (lo : ℕ) → ℕ × ℕ → Type 0
InRange lo (r, n) = (lo ≤ r) × (0 < n) × (r + page_size * n < 2 ^ 64)

abbrev pub ApartFrom : Cells → ℕ × ℕ → Type 0
ApartFrom xs (r, n) = All (Apart r n) xs

abbrev pub Pairwise : Cells → Type 0
Pairwise [] = Unit
Pairwise ((r, n) ∷ xs) = All (Apart r n) xs × Pairwise xs

pub record IsSafe (lo : ℕ) (p : Pool) : Type 0 where
  pub ordered : Ordered lo p.free
  pub ranges : All (InRange lo) p.used
  pub apart : All (ApartFrom p.free) p.used
  pub pairwise : Pairwise p.used
