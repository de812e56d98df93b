-- ===== src/Paging.antt =====
-- `PageTableEntry` of Kernel/Paging.h: the fields of a 64-bit word, the first in the lowest bits.
use xesual.Base.{ℕ, ◌+◌, ◌*◌, ◌/◌, ◌%◌, ◌^◌}

-- Where a field begins, and how many bits it has.
pub record BitField : Type 0 where
  pub shift : ℕ
  pub width : ℕ

abbrev field_at : ℕ → ℕ → BitField
field_at s w = record { shift = s; width = w }

abbrev pub is_present : BitField
is_present = field_at 0 1

abbrev pub is_writable : BitField
is_writable = field_at 1 1

abbrev pub is_user_accessible : BitField
is_user_accessible = field_at 2 1

abbrev pub write_through : BitField
write_through = field_at 3 1

abbrev pub cache_disabled : BitField
cache_disabled = field_at 4 1

abbrev pub has_been_accessed : BitField
has_been_accessed = field_at 5 1

abbrev pub page_size_bit : BitField
page_size_bit = field_at 7 1

abbrev pub is_global : BitField
is_global = field_at 8 1

abbrev pub physical_address : BitField
physical_address = field_at 12 28

abbrev pub execution_disabled : BitField
execution_disabled = field_at 63 1

-- The value of a field, and an assignment to it, which cuts the value to the width.
abbrev pub get_field : BitField → ℕ → ℕ
get_field b raw = raw / 2 ^ b.shift % 2 ^ b.width

abbrev pub set_field : BitField → ℕ → ℕ → ℕ
set_field b v raw =
    raw / 2 ^ (b.shift + b.width) * 2 ^ (b.shift + b.width)
    + v % 2 ^ b.width * 2 ^ b.shift
    + raw % 2 ^ b.shift
