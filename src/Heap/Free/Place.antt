-- ===== src/Heap/Free/Place.antt =====
-- Bytes put in order of address between the chunks of a list.
use xesual.Base.{
  ℕ, ◌+◌, ◌^◌, ◌<◌, ◌≤◌, ◌≡◌, ◌⊎◌, inl, inr, refl, ◌∙◌, arith, [], ◌∷◌, lt→ltb, le→ltb,
}
use xesual.PhysicalMemory.Chunks.{Cells, Linked, place, Linked-Spaced, Linked-from}
use xesual.Heap.{prev_of, bytes_of}
use xesual.Heap.Chunks.{InOrder, InOrder-Spaced, FitsIn, total_bytes}

FitsIn-below : (base n lo : ℕ) (xs : Cells) → InOrder lo xs → FitsIn base n lo xs → lo < base
FitsIn-below base n lo [] o h = h
FitsIn-below base n lo ((a, k) ∷ xs) (above, big, fits, o) (inl (below, h)) =
    omega (arith, FitsIn-below base n (a + k) xs o h)
FitsIn-below base n lo ((a, k) ∷ xs) o (inr (below, gap, apart)) = gap

-- A list survives any change to the bytes that are put between its chunks.
pub Linked-around :
    (f g : ℕ → ℕ) (base n prev p lo : ℕ) (xs : Cells)
    → ((j : ℕ) → (j < base) ⊎ (base + n ≤ j) → g j ≡ f j)
    → InOrder lo xs
    → FitsIn base n lo xs
    → Linked f prev p xs
    → Linked g prev p xs
Linked-around f g base n prev p lo [] same o h l = l
Linked-around f g base n prev p lo ((a, k) ∷ xs) same (above, big, low, o) (inl (below, h))
      (e, ne, back, size, l) =
    let end = FitsIn-below base n (a + k) xs o h in
    (
      e,
      ne,
      same (prev_of a) (inl (omega arith)) ∙ back,
      same (bytes_of a) (inl (omega arith)) ∙ size,
      Linked-from g a a (f a) (g a) xs refl (same a (inl (omega arith)))
          (Linked-around f g base n a (f a) (a + k) xs same o h l),
    )
Linked-around f g base n prev p lo ((a, k) ∷ xs) same o (inr (below, gap, apart)) l =
    Linked-Spaced f g prev p a ((a, k) ∷ xs)
      (InOrder-Spaced a ((a, k) ∷ xs) (omega arith, o.1, o.2, o.3))
      (λ j h. same j (inr (omega arith))) l

pub place-InOrder :
    (base n lo : ℕ) (xs : Cells)
    → 24 ≤ n
    → base + n < 2 ^ 64
    → InOrder lo xs
    → FitsIn base n lo xs
    → InOrder lo (place base n xs)
unfolding place
place-InOrder base n lo [] big small o h = (omega arith, big, small, tt)
place-InOrder base n lo ((a, k) ∷ xs) big small (above, some_bytes, low, o) (inl (below, h)) =
    rw (le→ltb base a below) (above, some_bytes, low, place-InOrder base n (a + k) xs big small o h)
place-InOrder base n lo ((a, k) ∷ xs) big small (above, some_bytes, low, o)
      (inr (below, gap, apart)) =
    rw (lt→ltb base a below) (omega arith, big, small, (omega arith, some_bytes, low, o))

pub total_bytes-place :
    (base n : ℕ) (xs : Cells) → total_bytes (place base n xs) ≡ n + total_bytes xs
unfolding place total_bytes
total_bytes-place base n [] = refl
total_bytes-place base n ((a, k) ∷ xs) = ground (arith, total_bytes-place base n xs)
