-- ===== src/Boot/MemoryMap.antt =====
-- The page allocator after the loop over the memory map: it holds the usable memory.
use xesual.Base.{
  ℕ, ◌+◌, ◌*◌, ◌/◌, ◌^◌, ◌<◌, ◌≤◌, ◌≡◌, refl, ap, ◌∙◌, arith, Bool, true, false, List, [], ◌∷◌,
  ◌++◌, ◌==◌, if◌then◌else◌, inl, inr, Bool-cases, length, length-append, max, u64, sub64, All,
}
use mathlib.Core.Path.{subst}
use xesual.Machine.{Machine, ok}
use xesual.Machine.Keeps.{Keeps, kept}
use xesual.Address.{page_size}
use xesual.Spinlock
use xesual.PhysicalMemory
use xesual.PhysicalMemory.{free_pages, free_range}
use xesual.PhysicalMemory.Chunks.{Cells, Ordered}
use xesual.PhysicalMemory.Access.{Holds}
use xesual.PhysicalMemory.Frame.{free_pages-same}
use xesual.Spinlock.Frame.{hhdm_offset-Ignored}
use xesual.PhysicalMemory.Free.{init-Holds}
use xesual.PhysicalMemory.Free.Last.{Within, Within-append, free_pages-last}
use xesual.Boot.{
  MemmapEntry, limine_memmap_usable, higher, add_entries,
  init_by_adding_usable_pages_to_memory_management,
}

-- The whole pages of the usable entries, at their addresses in the higher half.
abbrev pub usable : (offset : ℕ) → List MemmapEntry → Cells
usable offset [] = []
usable offset (e ∷ es) =
    let rest = usable offset es in
    if e.kind == limine_memmap_usable then (e.base + offset, e.length / page_size) ∷ rest else rest

-- The last address of the memory map.
abbrev pub highest : List MemmapEntry → ℕ
highest [] = 0
highest (e ∷ es) = max (e.base + e.length) (highest es)

-- Chunks above `lo`, each of a page at least, with a gap in front of each.
abbrev pub Gapped : ℕ → Cells → Type 0
Gapped lo [] = Unit {0}
Gapped lo ((a, n) ∷ xs) =
    (lo < a) × (0 < n) × (a + page_size * n < 2 ^ 64) × Gapped (a + page_size * n) xs

-- No address of an entry leaves the 64 bits.
abbrev pub Addressed : (offset : ℕ) → List MemmapEntry → Type 0
Addressed offset = All (λ e. e.base + e.length + offset < 2 ^ 64)

Keeps-init : (offset : ℕ) → Keeps (λ m. m.hhdm_offset ≡ offset) PhysicalMemory.init
unfolding PhysicalMemory.init Spinlock.init
Keeps-init offset = record { runs = λ m h. h }

-- The loop ends, with the usable memory behind what the allocator held, and with the maximum.
abbrev Added : (fuel maximum offset : ℕ) → Cells → List MemmapEntry → Machine → Type 0
Added fuel maximum offset xs entries m =
    (m' : Machine) × (add_entries fuel maximum entries m ≡ ok (max maximum (highest entries)) m')
    × Holds m' (xs ++ usable offset entries)

append_assoc : (c : ℕ × ℕ) (xs ys : Cells) → (xs ++ c ∷ []) ++ ys ≡ xs ++ c ∷ ys
append_assoc c [] ys = refl
append_assoc c (x ∷ xs) ys = ap (λ t. x ∷ t) (append_assoc c xs ys)

append-nil : (xs : Cells) → xs ++ [] ≡ xs
append-nil [] = refl
append-nil (x ∷ xs) = ap (λ t. x ∷ t) (append-nil xs)

higher-highest :
    (maximum offset : ℕ) (e : MemmapEntry) (es : List MemmapEntry)
    → e.base + e.length + offset < 2 ^ 64
    → max (higher maximum e) (highest es) ≡ max maximum (highest (e ∷ es))
higher-highest maximum offset e es h = ground arith

-- What `freeRange` is asked to free is the entry's whole pages.
free_range-pages :
    (fuel off offset : ℕ) (e : MemmapEntry)
    → off ≡ offset
    → e.base + e.length + offset < 2 ^ 64
    → free_range fuel (u64 (e.base + off)) (u64 (e.base + e.length + off))
      ≡ free_pages fuel (e.base + offset) (e.length / page_size)
unfolding free_range
free_range-pages fuel off offset e same h =
    let start : u64 (e.base + off) ≡ e.base + offset = omega arith in
    let pages : sub64 (u64 (e.base + e.length + off)) (e.base + offset) / page_size
        ≡ e.length / page_size =
      omega arith in
    rw (start, pages) refl

abbrev cell : (offset : ℕ) → MemmapEntry → ℕ × ℕ
cell offset e = (e.base + offset, e.length / page_size)

-- One entry, that is usable or is not, and the rest of the loop.
module _ (fuel maximum offset : ℕ) (e : MemmapEntry) (es : List MemmapEntry) (xs : Cells)
    (m : Machine) (f : e.base + e.length + offset < 2 ^ 64) where
  after_usable :
      (m' : Machine)
      → (e.kind == limine_memmap_usable) ≡ true
      → m.hhdm_offset ≡ offset
      → free_pages fuel (e.base + offset) (e.length / page_size) m ≡ ok tt m'
      → Added fuel (higher maximum e) offset (xs ++ cell offset e ∷ []) es m'
      → Added fuel maximum offset xs (e ∷ es) m
  unfolding add_entries
  after_usable m' t off freed (m'', run, held) = (
    m'',
    rw
        (
          t,
          free_range-pages fuel m.hhdm_offset offset e off f,
          freed,
          run,
          higher-highest maximum offset e es f,
        )
        refl,
    rw t (subst (λ ys. Holds m'' ys) (append_assoc (cell offset e) xs (usable offset es)) held),
  )

  after_other :
      (e.kind == limine_memmap_usable) ≡ false
      → Added fuel (higher maximum e) offset xs es m
      → Added fuel maximum offset xs (e ∷ es) m
  unfolding add_entries
  after_other t (m', run, held) =
      (m', rw (t, run, higher-highest maximum offset e es f) refl, rw t held)

add_entries-Holds :
    (fuel maximum offset lo : ℕ) (entries : List MemmapEntry) (xs : Cells) (m : Machine)
    → Holds m xs
    → Ordered 24 xs
    → Within lo xs
    → 24 ≤ lo
    → m.hhdm_offset ≡ offset
    → Addressed offset entries
    → Gapped lo (usable offset entries)
    → length xs + length entries < fuel
    → Added fuel maximum offset xs entries m
unfolding add_entries
add_entries-Holds fuel maximum offset lo [] xs m holds o w room off fit gaps enough =
    (m, ap (λ t. ok t m) (omega arith), rw (append-nil xs) holds)
add_entries-Holds fuel maximum offset lo (e ∷ es) xs m holds o w room off (f, fit) gaps enough =
    let rest = usable offset es in
    let split : (b : Bool)
        → (e.kind == limine_memmap_usable) ≡ b
        → Gapped lo (if b then cell offset e ∷ rest else rest) =
      λ b t. subst (λ b. Gapped lo (if b then cell offset e ∷ rest else rest)) t gaps in
    elim (Bool-cases (e.kind == limine_memmap_usable)) [
      | inr t ↦ after_other fuel maximum offset e es xs m f t (
          add_entries-Holds fuel (higher maximum e) offset lo es xs m holds o w room off fit
            (split false t) (omega arith))
      | inl t ↦
          let (above, pos, small, gaps') = split true t in
          let base = e.base + offset in
          let n = e.length / page_size in
          let (frees, ordered) =
            free_pages-last fuel lo base n xs m holds o w above (omega arith) pos small
              (omega arith) in
          let same = free_pages-same _ hhdm_offset-Ignored fuel base n m frees.after frees.runs in
          after_usable fuel maximum offset e es xs m f frees.after t off frees.runs (
            add_entries-Holds fuel (higher maximum e) offset (base + page_size * n) es
              (xs ++ cell offset e ∷ []) frees.after frees.holds ordered
              (Within-append lo base n xs above w) (omega arith) (same ∙ off) fit gaps'
              (omega (arith, length-append xs (cell offset e ∷ []))))
    ]

-- Where the usable entries of the memory map stand in order, with a gap in front of each and a page
-- in each, the page allocator holds just their whole pages after the loop over the map, and what is
-- returned is the last address of the map; a round of fuel for each entry and one more is enough.
pub init_by_adding-usable :
    (fuel offset : ℕ) (entries : List MemmapEntry) (m : Machine)
    → Addressed offset entries
    → Gapped 24 (usable offset entries)
    → length entries < fuel
    → (m' : Machine) × (init_by_adding_usable_pages_to_memory_management fuel offset entries m
        ≡ ok (highest entries) m')
      × Holds m' (usable offset entries)
unfolding init_by_adding_usable_pages_to_memory_management
init_by_adding-usable fuel offset entries m fit gaps enough =
    let m₁ : Machine = record m { hhdm_offset = offset } in
    let (m₂, run, holds, unused, free) = init-Holds m₁ in
    let (m₃, run', held) =
      add_entries-Holds fuel 0 offset 24 entries [] m₂ holds tt tt (omega arith)
        (kept (Keeps-init offset) m₁ tt m₂ refl run) fit gaps (omega arith) in
    (m₃, rw (run, run') (ap (λ t. ok t m₃) (omega arith)), held)
