-- ===== src/Gdt/Table.antt =====
-- `GDT::Table` of Kernel/GDT.h: its layout, `init` and `install`.
pub mod Selectors
use xesual.Base.{
  ℕ, zero, suc, ◌+◌, ◌-◌, ◌*◌, ◌/◌, ◌%◌, ◌^◌, Bool, true, false, bit_or, u16, u32, ◌<<<◌,
}
use xesual.Gdt.{
  ring0, ring3, code_allow_read, data_allow_write, code_seg, data_seg, user_access, null_access,
  system_access, available_tss, bit32, byte_granularity, make_flags, null_flags, long_mode_code,
  UserEntry, user_entry, SystemEntry, system_entry,
}

-- The packed `TSSEntry`, 104 bytes.
pub record TssEntry : Type 0 where
  pub reserved0 : ℕ
  pub stack_pointers : ℕ → ℕ  -- of 3
  pub reserved1 : ℕ
  pub interrupt_stack_table : ℕ → ℕ  -- of 7
  pub reserved2 : ℕ
  pub reserved3 : ℕ
  pub iomap_base : ℕ

pub record Table : Type 0 where
  pub null_entry : UserEntry
  pub kernel_code : UserEntry
  pub kernel_data : UserEntry
  pub user_code32 : UserEntry
  pub user_data32 : UserEntry
  pub user_code64 : UserEntry
  pub user_data64 : UserEntry
  pub the_entry_for_the_tss : SystemEntry
  pub the_tss_entry_itself : TssEntry

-- The names of the fields, and where each begins: the structs are packed.
pub data TableField : Type 0 where
  null_entry kernel_code kernel_data user_code32 user_data32 user_code64 : TableField
  user_data64 the_entry_for_the_tss the_tss_entry_itself : TableField

abbrev pub size_of_user_entry : ℕ
size_of_user_entry = 2 + 2 + 1 + 1 + 1 + 1

abbrev pub size_of_system_entry : ℕ
size_of_system_entry = size_of_user_entry + 4 + 4

abbrev pub size_of_tss_entry : ℕ
size_of_tss_entry = 4 + 8 * 3 + 8 + 8 * 7 + 8 + 2 + 2

abbrev pub offset_of : TableField → ℕ
offset_of null_entry = 0
offset_of kernel_code = size_of_user_entry
offset_of kernel_data = 2 * size_of_user_entry
offset_of user_code32 = 3 * size_of_user_entry
offset_of user_data32 = 4 * size_of_user_entry
offset_of user_code64 = 5 * size_of_user_entry
offset_of user_data64 = 6 * size_of_user_entry
offset_of the_entry_for_the_tss = 7 * size_of_user_entry
offset_of the_tss_entry_itself = 7 * size_of_user_entry + size_of_system_entry

-- `init`; the table stands at the address `this`.
unfoldable pub init : (this stack_location : ℕ) → Table → Table
unfolding user_entry system_entry user_access null_access system_access null_flags long_mode_code
init this stack_location t =
    let code0 = user_access code_allow_read code_seg ring0 in
    let data0 = user_access data_allow_write data_seg ring0 in
    let code3 = user_access code_allow_read code_seg ring3 in
    let data3 = user_access data_allow_write data_seg ring3 in
    let flags32 = make_flags false bit32 byte_granularity in
    let tss = t.the_tss_entry_itself in
    record {
      null_entry = user_entry 0 0 null_access null_flags;
      kernel_code = user_entry 0xffffffff 0 code0 long_mode_code;
      kernel_data = user_entry 0xffffffff 0 data0 flags32;
      user_code32 = user_entry 0xffffffff 0 code3 flags32;
      user_data32 = user_entry 0xffffffff 0 data3 flags32;
      user_code64 = user_entry 0xffffffff 0 code3 long_mode_code;
      user_data64 = user_entry 0xffffffff 0 data3 flags32;
      the_entry_for_the_tss =
          system_entry size_of_tss_entry (this + offset_of the_tss_entry_itself)
            (system_access available_tss ring0) null_flags;
      the_tss_entry_itself = record tss {
        stack_pointers = λ i. elim i [ zero ↦ stack_location | suc j ↦ tss.stack_pointers (suc j) ];
      };
    }

-- The registers that `install` loads.
pub record SegmentRegisters : Type 0 where
  pub gdtr_limit : ℕ  -- uint16_t
  pub gdtr_base : ℕ
  pub cs : ℕ
  pub ds : ℕ
  pub es : ℕ
  pub ss : ℕ
  pub tr : ℕ

unfoldable pub install : (this : ℕ) → SegmentRegisters
install this = record {
  gdtr_limit = u16 (offset_of the_tss_entry_itself - 1);
  gdtr_base = this;
  cs = offset_of kernel_code;
  ds = offset_of kernel_data;
  es = offset_of kernel_data;
  ss = offset_of kernel_data;
  tr = 0x3b;
}
