-- ===== src/Gdt/Table/Selectors.antt =====
-- What the table and its selectors are good for.
use xesual.Base.{ℕ, ◌+◌, ◌/◌, ◌%◌, ◌^◌, ◌<◌, ◌≡◌, refl, arith, bit_or}
use xesual.Base.Bits.{and_mask}
use xesual.Machine.{Machine}
use xesual.Gdt.{ring3, entry_word, user_entry, system_entry}
use xesual.Gdt.Encoding.{system_base_of, system_limit_of}
use xesual.Cpu.Registers.{set_star_register, star_register}
use xesual.Gdt.Table.{
  Table, TableField, init, install, offset_of, size_of_tss_entry, size_of_system_entry,
}

-- Whatever the table held: `init` writes the null descriptor, code and data for ring 0 and ring 3 in
-- 64-bit and 32-bit form, and a descriptor of an available task state segment, which is the one in
-- the table, and stands at its address with its whole size; the stack of ring 0 is the one given.
pub init-descriptors :
    (this stack_location : ℕ) (t : Table)
    → this + 72 < 2 ^ 64
    → let t' = init this stack_location t in
      (entry_word t'.null_entry ≡ 0)
      × (entry_word t'.kernel_code ≡ 0x002f_9a00_0000_ffff)
      × (entry_word t'.kernel_data ≡ 0x004f_9200_0000_ffff)
      × (entry_word t'.user_code32 ≡ 0x004f_fa00_0000_ffff)
      × (entry_word t'.user_data32 ≡ 0x004f_f200_0000_ffff)
      × (entry_word t'.user_code64 ≡ 0x002f_fa00_0000_ffff)
      × (entry_word t'.user_data64 ≡ 0x004f_f200_0000_ffff)
      × (system_base_of t'.the_entry_for_the_tss ≡ this + offset_of TableField.the_tss_entry_itself)
      × (system_limit_of t'.the_entry_for_the_tss ≡ size_of_tss_entry)
      × (t'.the_entry_for_the_tss.access ≡ 0x89)
      × (t'.the_tss_entry_itself.stack_pointers 0 ≡ stack_location)
unfolding init entry_word user_entry system_entry
init-descriptors this stack_location t h = (
  refl,
  refl,
  refl,
  refl,
  refl,
  refl,
  refl,
  simp (and_mask 16, and_mask 8, and_mask 32) (omega arith),
  refl,
  refl,
  refl,
)

-- What the processor makes of the register STAR: the selectors that `syscall` loads, and those that
-- a 64-bit `sysret` loads.
abbrev pub syscall_cs : ℕ → ℕ
syscall_cs star = star / 2 ^ 32 % 2 ^ 16

abbrev pub syscall_ss : ℕ → ℕ
syscall_ss star = syscall_cs star + 8

abbrev pub sysret_cs : ℕ → ℕ
sysret_cs star = star / 2 ^ 48 % 2 ^ 16 + 16

abbrev pub sysret_ss : ℕ → ℕ
sysret_ss star = star / 2 ^ 48 % 2 ^ 16 + 8

-- `install` and `setStarRegister` agree with the layout: the table's limit takes in every
-- descriptor and nothing of the task state segment, the task register selects the descriptor of
-- the latter, `syscall` enters with the kernel's code and data, and `sysret` leaves with the 64-bit
-- code and the 32-bit data of ring 3.
pub selectors-agree :
    (this : ℕ) (m : Machine)
    → let r = install this in
      let star = (set_star_register m).msr star_register in
      (r.gdtr_base + r.gdtr_limit + 1 ≡ this + offset_of TableField.the_tss_entry_itself)
      × (r.gdtr_limit + 1 ≡ offset_of TableField.the_entry_for_the_tss + size_of_system_entry)
      × (r.tr ≡ bit_or (offset_of TableField.the_entry_for_the_tss) ring3)
      × (syscall_cs star ≡ r.cs)
      × (syscall_ss star ≡ r.ss)
      × (sysret_cs star ≡ bit_or (offset_of TableField.user_code64) ring3)
      × (sysret_ss star ≡ bit_or (offset_of TableField.user_data32) ring3)
unfolding install set_star_register
selectors-agree this m = (omega arith, refl, refl, refl, refl, refl, refl)
