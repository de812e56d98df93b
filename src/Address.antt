-- ===== src/Address.antt =====
-- The addresses of Kernel/PhysicalMemoryManagement.h: all of physical memory is mapped at an
-- offset in the higher half, and both kinds of address are 64-bit words.
use xesual.Base.{ℕ, ◌+◌, ◌^◌, ◌<◌, ◌≡◌, Bool, not, arith, ◌==◌, u64, sub64}

abbrev pub page_shift : ℕ
page_shift = 12

abbrev pub page_size : ℕ
page_size = 2 ^ page_shift

unfoldable pub non_null : ℕ → Bool
non_null a = not (a == 0)

-- The first argument is `HigherHalfDirectMapOffset`.
unfoldable pub to_physical : ℕ → ℕ → ℕ
to_physical offset a = sub64 a offset

unfoldable pub to_virtual : ℕ → ℕ → ℕ
to_virtual offset a = u64 (a + offset)

-- For 64-bit words the two conversions are inverse to one another, whatever the offset is.
pub to_physical-to_virtual :
    (offset a : ℕ)
    → offset < 2 ^ 64
    → a < 2 ^ 64
    → (to_physical offset (to_virtual offset a) ≡ a)
      × (to_virtual offset (to_physical offset a) ≡ a)
unfolding to_physical to_virtual
to_physical-to_virtual offset a h k = omega arith
