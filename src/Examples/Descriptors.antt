-- ===== src/Examples/Descriptors.antt =====
-- Descriptors: a table at an address, the words of an entry, and the gates of interrupts.
use xesual.Base.{ℕ, ◌+◌, ◌*◌, ◌≡◌, arith, bit_or, false}
use xesual.Gdt.{
  ring0, ring3, code_allow_read, code_seg, user_access, long_mode_code, UserEntry, user_entry,
  entry_word,
}
use xesual.Gdt.Encoding.{system_base_of, system_limit_of, Fits}
use xesual.Cpu.Registers.{set_star_register, star_register}
use xesual.Gdt.Table.{TableField, init, offset_of, size_of_system_entry, install}
use xesual.Gdt.Table.Selectors.{
  init-descriptors, selectors-agree, syscall_cs, syscall_ss, sysret_cs, sysret_ss,
}
use xesual.Traps.{IdtEntry, set_gate, Stub, isr, irq, setup_idt_table}
use xesual.Traps.Gates.{Reads, setup_idt_table-stub_of}
use xesual.Examples.Machines.{shared, empty_table}

-- The entry of the kernel's code.
abbrev code_entry : UserEntry
code_entry = user_entry 0xffffffff 0 (user_access code_allow_read code_seg ring0) long_mode_code

code_entry-Fits : Fits code_entry
unfolding user_entry user_access long_mode_code
code_entry-Fits = record {
  limit_low = omega arith;
  base_low = omega arith;
  base_mid = omega arith;
  access = omega arith;
  limit_high = omega arith;
  flags = omega arith;
  base_high = omega arith;
}

init-descriptors_example :
    let t' = init 0xffff_8000_0020_0030 0xffff_8000_0030_0000 empty_table in
    (entry_word t'.null_entry ≡ 0)
    × (entry_word t'.kernel_code ≡ 0x002f_9a00_0000_ffff)
    × (entry_word t'.kernel_data ≡ 0x004f_9200_0000_ffff)
    × (entry_word t'.user_code32 ≡ 0x004f_fa00_0000_ffff)
    × (entry_word t'.user_data32 ≡ 0x004f_f200_0000_ffff)
    × (entry_word t'.user_code64 ≡ 0x002f_fa00_0000_ffff)
    × (entry_word t'.user_data64 ≡ 0x004f_f200_0000_ffff)
    × (system_base_of t'.the_entry_for_the_tss ≡ 0xffff_8000_0020_0078)
    × (system_limit_of t'.the_entry_for_the_tss ≡ 104)
    × (t'.the_entry_for_the_tss.access ≡ 0x89)
    × (t'.the_tss_entry_itself.stack_pointers 0 ≡ 0xffff_8000_0030_0000)
init-descriptors_example =
    init-descriptors 0xffff_8000_0020_0030 0xffff_8000_0030_0000 empty_table (omega arith)

selectors-agree_example :
    let r = install 0xffff_8000_0020_0030 in
    let star = (set_star_register shared).msr star_register in
    (r.gdtr_base + r.gdtr_limit + 1 ≡ 0xffff_8000_0020_0078)
    × (r.gdtr_limit + 1 ≡ offset_of TableField.the_entry_for_the_tss + size_of_system_entry)
    × (r.tr ≡ bit_or (offset_of TableField.the_entry_for_the_tss) ring3)
    × (syscall_cs star ≡ r.cs)
    × (syscall_ss star ≡ r.ss)
    × (sysret_cs star ≡ bit_or (offset_of TableField.user_code64) ring3)
    × (sysret_ss star ≡ bit_or (offset_of TableField.user_data32) ring3)
selectors-agree_example = selectors-agree 0xffff_8000_0020_0030 shared

abbrev handler : ℕ
handler = 0xffff_ffff_8010_2345

-- Entry points 16 bytes apart, and an array without gates.
abbrev entry_point : Stub → ℕ
entry_point (isr n) = 0xffff_ffff_8010_0000 + 16 * n
entry_point (irq n) = 0xffff_ffff_8010_2000 + 16 * n

abbrev no_gates : ℕ → IdtEntry
no_gates v = set_gate 0 0 0 false

setup_idt_table-stub_of_example :
    Reads (setup_idt_table entry_point no_gates 128) (entry_point (isr 128)) 8 3
setup_idt_table-stub_of_example = setup_idt_table-stub_of entry_point no_gates 128 (omega arith)

no_gate_at_122 : setup_idt_table entry_point no_gates 122 ≡ no_gates 122
no_gate_at_122 = setup_idt_table-stub_of entry_point no_gates 122 tt
