-- ===== src/Gdt.antt =====
-- Kernel/GDT.h: the descriptors, as the compiler lays their bit fields out (the first field of a
-- byte in its lowest bits), and the table of them.
pub mod Encoding
pub mod Table
use xesual.Base.{ℕ, ◌+◌, ◌*◌, ◌/◌, ◌%◌, ◌^◌, Bool, true, false, bit_and, bit, u16, u32, u8, ◌>>>◌}

-- DescriptorPrivilegeLevel
abbrev pub ring0 : ℕ
ring0 = 0

abbrev pub ring3 : ℕ
ring3 = 3

-- ReadableWriteable and Executable
abbrev pub null_rw : ℕ
null_rw = 0

abbrev pub code_allow_read : ℕ
code_allow_read = 1

abbrev pub data_allow_write : ℕ
data_allow_write = 1

abbrev pub null_seg : ℕ
null_seg = 0

abbrev pub data_seg : ℕ
data_seg = 0

abbrev pub code_seg : ℕ
code_seg = 1

pub record UserAccessByte : Type 0 where
  pub accessed : Bool
  pub readable_writeable : ℕ  -- 1 bit
  pub direction_conforming : Bool
  pub executable : ℕ  -- 1 bit
  pub is_user_segment : Bool
  pub descriptor_privilege_level : ℕ  -- 2 bits
  pub present : Bool

unfoldable pub user_access : (rw executable level : ℕ) → UserAccessByte
user_access rw executable level = record {
  accessed = false;
  readable_writeable = rw % 2;
  direction_conforming = false;
  executable = executable % 2;
  is_user_segment = true;
  descriptor_privilege_level = level % 4;
  present = true;
}

unfoldable pub null_access : UserAccessByte
null_access = record {
  accessed = false;
  readable_writeable = null_rw;
  direction_conforming = false;
  executable = null_seg;
  is_user_segment = false;
  descriptor_privilege_level = 0;
  present = false;
}

unfoldable pub user_access_bits : UserAccessByte → ℕ
user_access_bits a =
    bit a.accessed
    + a.readable_writeable * 2
    + bit a.direction_conforming * 2 ^ 2
    + a.executable * 2 ^ 3
    + bit a.is_user_segment * 2 ^ 4
    + a.descriptor_privilege_level * 2 ^ 5
    + bit a.present * 2 ^ 7

-- Type
abbrev pub available_tss : ℕ
available_tss = 0x9

pub record SystemAccessByte : Type 0 where
  pub type : ℕ  -- 4 bits
  pub is_user_segment : Bool
  pub descriptor_privilege_level : ℕ  -- 2 bits
  pub present : Bool

unfoldable pub system_access : (type dpl : ℕ) → SystemAccessByte
system_access type dpl = record {
  type = type % 16;
  is_user_segment = false;
  descriptor_privilege_level = dpl % 4;
  present = true;
}

unfoldable pub system_access_bits : SystemAccessByte → ℕ
system_access_bits a =
    a.type
    + bit a.is_user_segment * 2 ^ 4
    + a.descriptor_privilege_level * 2 ^ 5
    + bit a.present * 2 ^ 7

-- Granularity and Size
abbrev pub byte_granularity : ℕ
byte_granularity = 0

abbrev pub null_size : ℕ
null_size = 0

abbrev pub bit32 : ℕ
bit32 = 1

pub record Flags : Type 0 where
  pub reserved : ℕ  -- 1 bit
  pub is_long_mode_code : Bool
  pub size : ℕ  -- 1 bit
  pub granularity : ℕ  -- 1 bit

unfoldable pub make_flags : Bool → (size granularity : ℕ) → Flags
make_flags long size granularity = record {
  reserved = 0;
  is_long_mode_code = long;
  size = size % 2;
  granularity = granularity % 2;
}

unfoldable pub null_flags : Flags
unfolding make_flags
null_flags = make_flags false null_size 0

unfoldable pub long_mode_code : Flags
unfolding make_flags
long_mode_code = make_flags true null_size byte_granularity

-- `Flags::operator uint8_t`, on the four bits that there are.
unfoldable pub flags_bits : Flags → ℕ
flags_bits f = f.reserved + bit f.is_long_mode_code * 2 + f.size * 2 ^ 2 + f.granularity * 2 ^ 3

pub record UserEntry : Type 0 where
  pub limit_low : ℕ  -- uint16_t
  pub base_low : ℕ  -- uint16_t
  pub base_mid : ℕ  -- uint8_t
  pub access : ℕ  -- the bits of a UserAccessByte
  pub limit_high : ℕ  -- 4 bits
  pub flags : ℕ  -- 4 bits
  pub base_high : ℕ  -- uint8_t

unfoldable pub user_entry : (limit base : ℕ) → UserAccessByte → Flags → UserEntry
unfolding user_access_bits flags_bits
user_entry limit base access flags = record {
  limit_low = bit_and limit 0xffff;
  base_low = bit_and base 0xffff;
  base_mid = bit_and (base >>> 16) 0xff;
  access = user_access_bits access;
  limit_high = bit_and (limit >>> 16) 0xff % 2 ^ 4;
  flags = flags_bits flags % 2 ^ 4;
  base_high = bit_and (base >>> 24) 0xff;
}

-- The entry as the 64-bit word in its place, and `become`, which writes such a word there.
unfoldable pub entry_word : UserEntry → ℕ
entry_word e =
    e.limit_low
    + e.base_low * 2 ^ 16
    + e.base_mid * 2 ^ 32
    + e.access * 2 ^ 40
    + e.limit_high * 2 ^ 48
    + e.flags * 2 ^ 52
    + e.base_high * 2 ^ 56

unfoldable pub become : ℕ → UserEntry
become x = record {
  limit_low = x % 2 ^ 16;
  base_low = x / 2 ^ 16 % 2 ^ 16;
  base_mid = x / 2 ^ 32 % 2 ^ 8;
  access = x / 2 ^ 40 % 2 ^ 8;
  limit_high = x / 2 ^ 48 % 2 ^ 4;
  flags = x / 2 ^ 52 % 2 ^ 4;
  base_high = x / 2 ^ 56 % 2 ^ 8;
}

pub record SystemEntry : Type 0 where
  pub limit_low : ℕ
  pub base_low : ℕ
  pub base_mid : ℕ
  pub access : ℕ  -- the bits of a SystemAccessByte
  pub limit_high : ℕ
  pub flags : ℕ
  pub base_high : ℕ
  pub base_higher : ℕ  -- uint32_t
  pub reserved : ℕ  -- uint32_t

unfoldable pub system_entry : (limit base : ℕ) → SystemAccessByte → Flags → SystemEntry
unfolding system_access_bits flags_bits
system_entry limit base access granularity =
    let limit = u16 limit in
    record {
      limit_low = bit_and limit 0xffff;
      base_low = bit_and base 0xffff;
      base_mid = bit_and (base >>> 16) 0xff;
      access = system_access_bits access;
      limit_high = bit_and (limit >>> 16) 0xff % 2 ^ 4;
      flags = flags_bits granularity % 2 ^ 4;
      base_high = bit_and (base >>> 24) 0xff;
      base_higher = u32 (bit_and (base >>> 32) 0xffffffff);
      reserved = 0;
    }
