-- ===== src/Heap/Chunks.antt =====
-- What the list of free chunks of bytes stands for, and what first fit makes of such a list.
use xesual.Base.{
  ℕ, ◌+◌, ◌-◌, ◌^◌, ◌<◌, ◌≤◌, ◌≡◌, ◌⊎◌, inl, inr, arith, [], ◌∷◌, Option, none, some, leb, ◌==◌,
  if◌then◌else◌, All, Bool-cases, refl,
}
use xesual.Machine.{Machine, heap_lock}
use xesual.Cpu.Nesting.{Nesting}
use xesual.PhysicalMemory.Chunks.{Cells, Linked, Spaced, behind}
use xesual.Heap.{header_size}

-- The size of the fields of a `FreeChunk`.
abbrev pub fields_size : ℕ
fields_size = 24

-- The chunks lie at `lo` and above, one behind the other, each with room for its fields, below
-- 2 ^ 64.
abbrev pub InOrder : ℕ → Cells → Type 0
InOrder lo [] = Unit {0}
InOrder lo ((a, n) ∷ xs) = (lo ≤ a) × (fields_size ≤ n) × (a + n < 2 ^ 64) × InOrder (a + n) xs

-- The heap holds these chunks, its lock is free, and processor `i` runs.
pub record HoldsBytes (i : ℕ) (m : Machine) (xs : Cells) : Type 0 where
  pub nesting : Nesting i m
  pub unheld : m.held heap_lock ≡ 0
  pub linked : Linked m.mem 0 m.heap_list xs

-- First fit: the address behind the header, where the header and the bytes, `actual` together, come
-- from the end of the first chunk that has as many, and what is left.
unfoldable pub first_fit : (actual : ℕ) → Cells → Option (ℕ × Cells)
first_fit actual [] = none
first_fit actual ((a, k) ∷ xs) =
    if leb actual k
    then some (a + (k - actual) + header_size, if k - actual == 0 then xs else (a, k - actual) ∷ xs)
    else behind (a, k) (first_fit actual xs)

-- `n` bytes at `base` fit between the chunks, which begin at `lo`, and touch none of them.
abbrev pub FitsIn : (base n lo : ℕ) → Cells → Type 0
FitsIn base n lo [] = lo < base
FitsIn base n lo ((a, k) ∷ xs) =
    ((a ≤ base) × FitsIn base n (a + k) xs) ⊎ ((base < a) × (lo < base) × (base + n < a))

Spaced-from : (lo hi : ℕ) (xs : Cells) → lo ≤ hi → InOrder hi xs → Spaced lo xs
Spaced-from lo hi [] h o = tt
Spaced-from lo hi ((a, n) ∷ xs) h (above, room, fits, o) =
    (omega arith, Spaced-from (a + 24) (a + n) xs (omega arith) o)

pub InOrder-Spaced : (lo : ℕ) (xs : Cells) → InOrder lo xs → Spaced lo xs
InOrder-Spaced lo xs = Spaced-from lo lo xs (omega arith)

-- All bytes of the chunks.
unfoldable pub total_bytes : Cells → ℕ
total_bytes [] = 0
total_bytes ((a, n) ∷ xs) = n + total_bytes xs

-- The `n` bytes at `r` are part of one of the chunks.
abbrev pub Inside : (r n : ℕ) → Cells → Type 0
Inside r n [] = ⊥
Inside r n ((a, k) ∷ xs) = ((a ≤ r) × (r + n ≤ a + k)) ⊎ Inside r n xs

-- The `n` bytes at `r` share none with a chunk.
abbrev pub Beside : (r n : ℕ) → ℕ × ℕ → Type 0
Beside r n (a, k) = (a + k ≤ r) ⊎ (r + n ≤ a)

-- What first fit promises: the bytes and their header come from one chunk, lie apart from all that is
-- left, and are counted; where it gives none, no chunk has as many.
abbrev pub Promised : (lo actual : ℕ) → Cells → Option (ℕ × Cells) → Type 0
Promised lo actual xs none = All (λ (a, k). k < actual) xs
Promised lo actual xs (some (r, ys)) =
    (base : ℕ) × (r ≡ base + header_size)
    × (lo ≤ base)
    × Inside base actual xs
    × All (Beside base actual) ys
    × (total_bytes ys + actual ≡ total_bytes xs)

All-Beside : (r n lo : ℕ) (xs : Cells) → r + n ≤ lo → InOrder lo xs → All (Beside r n) xs
All-Beside r n lo [] h o = tt
All-Beside r n lo ((a, k) ∷ xs) h (above, room, fits, o) =
    (inr (omega arith), All-Beside r n (a + k) xs (omega arith) o)

pass_over :
    (lo actual a k : ℕ) (xs : Cells) (o : Option (ℕ × Cells))
    → k < actual
    → lo ≤ a
    → Promised (a + k) actual xs o
    → Promised lo actual ((a, k) ∷ xs) (behind (a, k) o)
unfolding total_bytes
pass_over lo actual a k xs none small above p = (small, p)
pass_over lo actual a k xs (some (r, ys)) small above (base, e, low, within, apart, sum) =
    (base, e, omega arith, inr within, (inl low, apart), omega arith)

pub first_fit-Promised :
    (actual lo : ℕ) (xs : Cells) → InOrder lo xs → Promised lo actual xs (first_fit actual xs)
unfolding first_fit total_bytes
first_fit-Promised actual lo [] o = tt
first_fit-Promised actual lo ((a, k) ∷ xs) (above, room, fits, o) =
    let base = a + (k - actual) in
    elim (Bool-cases (leb actual k)) [
      | inl t ↦ rw t (elim (Bool-cases (k - actual == 0)) [
        | inl z ↦ rw z (
          base,
          refl,
          omega arith,
          inl (omega arith, ground arith),
          All-Beside base actual (a + k) xs (ground arith) o,
          ground arith,
        )
        | inr z ↦ rw z (
          base,
          refl,
          omega arith,
          inl (omega arith, ground arith),
          (inl (omega arith), All-Beside base actual (a + k) xs (ground arith) o),
          ground arith,
        )
      ])
      | inr t ↦ rw t (
          pass_over lo actual a k xs (first_fit actual xs) (ground arith) above
            (first_fit-Promised actual (a + k) xs o))
    ]
