-- ===== src/Gdt/Encoding.antt =====
-- What a processor reads back from a descriptor.
use xesual.Base.{ℕ, ◌+◌, ◌*◌, ◌%◌, ◌^◌, ◌<◌, ◌≡◌, arith}
use xesual.Base.Bits.{and_mask}
use xesual.Gdt.{
  UserAccessByte, SystemAccessByte, Flags, UserEntry, user_entry, entry_word, become, SystemEntry,
  system_entry,
}

-- The limit and the base that an entry stands for, as the processor puts them together.
abbrev pub limit_of : UserEntry → ℕ
limit_of e = e.limit_low + e.limit_high * 2 ^ 16

abbrev pub base_of : UserEntry → ℕ
base_of e = e.base_low + e.base_mid * 2 ^ 16 + e.base_high * 2 ^ 24

abbrev pub system_base_of : SystemEntry → ℕ
system_base_of e = e.base_low + e.base_mid * 2 ^ 16 + e.base_high * 2 ^ 24 + e.base_higher * 2 ^ 32

abbrev pub system_limit_of : SystemEntry → ℕ
system_limit_of e = e.limit_low + e.limit_high * 2 ^ 16

-- A user entry keeps all of a 32-bit base, and the low 20 bits of the limit; a system entry keeps
-- all of a 64-bit base, and all of a 16-bit limit.
pub entry_fields :
    (limit base limit' base' : ℕ) (access : UserAccessByte) (sys : SystemAccessByte) (flags : Flags)
    → base < 2 ^ 32
    → base' < 2 ^ 64
    → limit' < 2 ^ 16
    → (base_of (user_entry limit base access flags) ≡ base)
      × (limit_of (user_entry limit base access flags) ≡ limit % 2 ^ 20)
      × (system_base_of (system_entry limit' base' sys flags) ≡ base')
      × (system_limit_of (system_entry limit' base' sys flags) ≡ limit')
unfolding user_entry system_entry
entry_fields limit base limit' base' access sys flags h h' h'' = (
  simp (and_mask 16, and_mask 8) (omega arith),
  simp (and_mask 16, and_mask 8) (omega arith),
  simp (and_mask 16, and_mask 8, and_mask 32) (omega arith),
  simp (and_mask 16, and_mask 8) (omega arith),
)

-- An entry whose fields fit their widths.
pub record Fits (e : UserEntry) : Type 0 where
  pub limit_low : e.limit_low < 2 ^ 16
  pub base_low : e.base_low < 2 ^ 16
  pub base_mid : e.base_mid < 2 ^ 8
  pub access : e.access < 2 ^ 8
  pub limit_high : e.limit_high < 2 ^ 4
  pub flags : e.flags < 2 ^ 4
  pub base_high : e.base_high < 2 ^ 8

-- `become` of the word of an entry is that entry, and the word of what `become` makes is the word.
pub become-entry_word :
    (e : UserEntry) (x : ℕ)
    → Fits e
    → x < 2 ^ 64
    → (become (entry_word e) ≡ e) × (entry_word (become x) ≡ x)
unfolding become entry_word
become-entry_word e x f h = (
  λ i. record {
    limit_low = a i;
    base_low = b i;
    base_mid = c i;
    access = d i;
    limit_high = l i;
    flags = g i;
    base_high = k i;
  },
  omega arith,
)
  where
    a : (become (entry_word e)).limit_low ≡ e.limit_low
    a = omega (arith, f.limit_low)

    b : (become (entry_word e)).base_low ≡ e.base_low
    b = omega (arith, f.limit_low, f.base_low)

    c : (become (entry_word e)).base_mid ≡ e.base_mid
    c = omega (arith, f.limit_low, f.base_low, f.base_mid)

    d : (become (entry_word e)).access ≡ e.access
    d = omega (arith, f.limit_low, f.base_low, f.base_mid, f.access)

    l : (become (entry_word e)).limit_high ≡ e.limit_high
    l = omega (arith, f.limit_low, f.base_low, f.base_mid, f.access, f.limit_high)

    g : (become (entry_word e)).flags ≡ e.flags
    g = omega (arith, f.limit_low, f.base_low, f.base_mid, f.access, f.limit_high, f.flags)

    k : (become (entry_word e)).base_high ≡ e.base_high
    k =
        omega
          (arith, f.limit_low, f.base_low, f.base_mid, f.access, f.limit_high, f.flags, f.base_high)
