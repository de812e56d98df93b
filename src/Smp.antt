-- ===== src/Smp.antt =====
-- Kernel/SMP.h and the reading of a processor's id in Kernel/LocalAPIC.h.
use xesual.Base.{
  ℕ, ◌+◌, ◌*◌, ◌/◌, ◌%◌, ◌^◌, ◌<◌, ◌≡◌, ◌∙◌, ap, bit_and, bit_or, arith, u32, u64, ◌>>>◌, ◌<<<◌,
}
use xesual.Base.Bits.{and_mask, and_high_mask, or_fields, fields_or}
use xesual.Machine.{Machine, update}
use xesual.Address.{to_virtual}

-- `cpuGetMSR` and `cpuSetMSR`: `rdmsr` and `wrmsr` on the halves `edx:eax` of a register.
abbrev pub msr_low : Machine → ℕ → ℕ
msr_low m r = u32 (m.msr r)

abbrev pub msr_high : Machine → ℕ → ℕ
msr_high m r = u32 (m.msr r >>> 32)

unfoldable pub cpu_set_msr : ℕ → (lo hi : ℕ) → Machine → Machine
cpu_set_msr r lo hi m = record m { msr = update m.msr r (u32 hi * 2 ^ 32 + u32 lo) }

abbrev pub apic_base_msr : ℕ
apic_base_msr = 0x1b

unfoldable pub set_apic_base : ℕ → Machine → Machine
unfolding cpu_set_msr
set_apic_base addr m =
    let edx = u32 (bit_and (addr >>> 32) 0x0f) in
    let eax = u32 (bit_or (bit_and addr 0xfffff0000) 0x800) in cpu_set_msr apic_base_msr eax edx m

unfoldable pub get_apic_base : Machine → ℕ
get_apic_base m =
    let eax = msr_low m apic_base_msr in
    let edx = msr_high m apic_base_msr in
    bit_or (bit_and eax 0xfffff000) (u64 (bit_and edx 0x0f <<< 32))

-- `lapicID`: the id stands in the top byte of the register at 0x20.
unfoldable pub lapic_id : Machine → ℕ
unfolding get_apic_base
lapic_id m = m.mmio (to_virtual m.hhdm_offset (get_apic_base m) + 0x20) >>> 24

-- The masks as arithmetic.
mask_64k : (a : ℕ) → bit_and a 0xfffff0000 ≡ a / 2 ^ 16 % 2 ^ 20 * 2 ^ 16
mask_64k a = and_high_mask 16 a 0xfffff ∙ ap (λ t. t * 2 ^ 16) (and_mask 20 (a / 2 ^ 16))

mask_4k : (a : ℕ) → bit_and a 0xfffff000 ≡ a / 2 ^ 12 % 2 ^ 20 * 2 ^ 12
mask_4k a = and_high_mask 12 a 0xfffff ∙ ap (λ t. t * 2 ^ 12) (and_mask 20 (a / 2 ^ 12))

set_low : (a : ℕ) → bit_or (a * 2 ^ 16) 0x800 ≡ a * 2 ^ 16 + 0x800
set_low a = or_fields 16 a 0x800 (omega arith)

join_halves :
    (lo hi : ℕ) → lo < 2 ^ 32 → hi < 2 ^ 4 → bit_or lo (u64 (hi <<< 32)) ≡ hi * 2 ^ 32 + lo
join_halves lo hi p q =
    ap (bit_or lo) (let e : u64 (hi <<< 32) ≡ hi * 2 ^ 32 = omega arith in e) ∙ fields_or 32 hi lo p

-- What `getAPICBase` reads back after `setAPICBase` of an address is the address cut to the 64 KiB
-- below it and to 36 bits: the mask 0xfffff0000 clears the bits 12 to 15 too.
pub get_apic_base-set_apic_base :
    (addr : ℕ) (m : Machine)
    → get_apic_base (set_apic_base addr m) ≡ addr % 2 ^ 36 / 2 ^ 16 * 2 ^ 16
unfolding get_apic_base set_apic_base
get_apic_base-set_apic_base addr m =
    simp (mask_64k, set_low, and_mask 4, mask_4k)
      (join_halves _ _ (omega arith) (omega arith) ∙ omega arith)
