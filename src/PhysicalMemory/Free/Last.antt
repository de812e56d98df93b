-- ===== src/PhysicalMemory/Free/Last.antt =====
-- `freePages` above every chunk: the pages become the last one.
use xesual.Base.{
  ℕ, ◌+◌, ◌*◌, ◌^◌, ◌<◌, ◌≤◌, ◌≡◌, refl, ap, arith, [], ◌∷◌, ◌++◌, le→ltb, inl, length,
}
use xesual.Machine.{Machine}
use mathlib.Core.Path.{subst}
use xesual.Address.{page_size}
use xesual.PhysicalMemory.{free_pages}
use xesual.PhysicalMemory.Chunks.{Cells, Ordered, place, Fits}
use xesual.PhysicalMemory.Access.{Holds}
use xesual.PhysicalMemory.Free.{Frees, free_pages-first, free_pages-place}

-- The chunks end at `hi` or below.
abbrev pub Within : ℕ → Cells → Type 0
Within hi [] = Unit {0}
Within hi ((a, n) ∷ xs) = (a + page_size * n ≤ hi) × Within hi xs

Within-le : (hi hi' : ℕ) (xs : Cells) → hi ≤ hi' → Within hi xs → Within hi' xs
Within-le hi hi' [] h w = tt
Within-le hi hi' ((a, n) ∷ xs) h (e, w) = (omega arith, Within-le hi hi' xs h w)

pub Within-append :
    (hi base n : ℕ) (xs : Cells)
    → hi < base
    → Within hi xs
    → Within (base + page_size * n) (xs ++ (base, n) ∷ [])
Within-append hi base n [] h w = (omega arith, tt)
Within-append hi base n ((a, k) ∷ xs) h (e, w) = (omega arith, Within-append hi base n xs h w)

place-last :
    (hi base n : ℕ) (xs : Cells) → hi < base → Within hi xs → place base n xs ≡ xs ++ (base, n) ∷ []
unfolding place
place-last hi base n [] h w = refl
place-last hi base n ((a, k) ∷ xs) h (e, w) =
    rw (le→ltb base a (omega arith)) (ap (λ t. (a, k) ∷ t) (place-last hi base n xs h w))

Fits-last :
    (hi base n lo : ℕ) (xs : Cells) → hi < base → lo < base → Within hi xs → Fits base n lo xs
Fits-last hi base n lo [] h l w = l
Fits-last hi base n lo ((a, k) ∷ xs) h l (e, w) =
    inl (omega arith, Fits-last hi base n (a + page_size * k) xs h (omega arith) w)

-- The run ends, and the allocator holds the chunks with the pages behind them, again in order.
pub free_pages-last :
    (fuel hi base n : ℕ) (xs : Cells) (m : Machine)
    → Holds m xs
    → Ordered 24 xs
    → Within hi xs
    → hi < base
    → 24 ≤ base
    → 0 < n
    → base + page_size * n < 2 ^ 64
    → length xs < fuel
    → Frees (xs ++ (base, n) ∷ []) (free_pages fuel base n m) × Ordered 24 (xs ++ (base, n) ∷ [])
free_pages-last fuel hi base n [] m holds o w above room pos small enough =
    (free_pages-first fuel base n m holds (omega arith) pos small, (omega arith, pos, small, tt))
free_pages-last fuel hi base n ((a, k) ∷ xs) m holds o (e, w) above room pos small enough =
    let fits = Fits-last hi base n (a + page_size * k) xs above (omega arith) w in
    let (frees, ordered, total) =
      free_pages-place fuel base n a k 24 xs m holds (omega arith) o (omega arith) fits pos small
        enough in
    let last = place-last hi base n ((a, k) ∷ xs) above (e, w) in
    (
      subst (λ ys. Frees ys (free_pages fuel base n m)) last frees,
      subst (λ ys. Ordered 24 ys) last ordered,
    )
