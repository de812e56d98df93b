-- ===== src/Examples/Machines.antt =====
-- Machines with one processor, before and after the page allocator has some pages.
use xesual.Base.{refl, inr, arith, false, true, none, [], ◌∷◌, ◌==◌, if◌then◌else◌}
use xesual.Machine.{Machine, CpuState, ProcessInfo, ProcessState}
use xesual.Gdt.{UserEntry, become, system_entry, system_access, null_flags}
use xesual.Gdt.Table.{Table, TssEntry, SegmentRegisters}
use xesual.Traps.{IdtEntry}
use xesual.Smp.{lapic_id}
use xesual.Cpu.{this_cpu}
use xesual.Cpu.Nesting.{Nesting}
use xesual.PhysicalMemory.Chunks.{Cells}
use xesual.PhysicalMemory.Access.{Holds}

abbrev pub idle_cpu : CpuState
idle_cpu = record {
  apic_id = 0;
  cli_count = 0;
  were_interrupts_enabled = false;
  current_process = none;
  interrupt_stack = 0;
  user_stack = 0;
  scheduler_task = 0;
}

abbrev pub no_process : ProcessInfo
no_process = record {
  page_table = 0;
  state = ProcessState.unused;
  kernel_stack = 0;
  kernel_task = 0;
  trap_frame = 0;
}

-- A table full of zeros, as `CPUs` is cleared.
abbrev empty_entry : UserEntry
empty_entry = become 0

abbrev empty_tss : TssEntry
empty_tss = record {
  reserved0 = 0;
  stack_pointers = λ i. 0;
  reserved1 = 0;
  interrupt_stack_table = λ i. 0;
  reserved2 = 0;
  reserved3 = 0;
  iomap_base = 0;
}

abbrev pub empty_table : Table
empty_table = record {
  null_entry = empty_entry;
  kernel_code = empty_entry;
  kernel_data = empty_entry;
  user_code32 = empty_entry;
  user_data32 = empty_entry;
  user_code64 = empty_entry;
  user_data64 = empty_entry;
  the_entry_for_the_tss = system_entry 0 0 (system_access 0 0) null_flags;
  the_tss_entry_itself = empty_tss;
}

abbrev no_segments : SegmentRegisters
no_segments = record { gdtr_limit = 0; gdtr_base = 0; cs = 0; ds = 0; es = 0; ss = 0; tr = 0 }

abbrev empty_gate : IdtEntry
empty_gate = record {
  base_low = 0;
  selector = 0;
  zero_byte = 0;
  flags = 0;
  base_mid = 0;
  base_high = 0;
  padding = 0;
}

-- All zero, but for one processor whose interrupts are on.
abbrev pub booted : Machine
booted = record {
  mem = λ a. 0;
  mmio = λ a. 0;
  msr = λ r. 0;
  interrupts = true;
  hhdm_offset = 0;
  held = λ l. 0;
  using_lock = false;
  page_list = 0;
  heap_list = 0;
  cpu_count = 1;
  cpus = λ i. idle_cpu;
  processes = λ i. no_process;
  kernel_page_table = 0;
  lapic = 0;
  cr3 = 0;
  goto_address = λ i. 0;
  cpus_address = 0;
  tables = λ i. empty_table;
  segments = no_segments;
  idt_entries = λ v. empty_gate;
  idtr = record { limit = 0; base = 0 };
  out_bytes = [];
  display = λ a. 0;
  config_address = 0;
  config_space = λ a. 0xffff_ffff;
}

-- The same with the lock of the page allocator in use.
abbrev pub shared : Machine
shared = record booted { using_lock = true }

pub shared-Nesting : Nesting 0 shared
unfolding this_cpu lapic_id
shared-Nesting = record { here = refl; room = omega arith; off = λ h. absurd (h refl) }

-- Eight pages at 0x10000.
abbrev pub eight : Cells
eight = (0x10000, 8) ∷ []

abbrev pub with_eight : Machine
with_eight = record shared { page_list = 0x10000; mem = λ a. if a == 0x10010 then 8 else 0 }

with_eight-Nesting : Nesting 0 with_eight
unfolding this_cpu lapic_id
with_eight-Nesting = record { here = refl; room = omega arith; off = λ h. absurd (h refl) }

pub eight-Holds : Holds with_eight eight
eight-Holds = record {
  ready = record { usable = inr (0, with_eight-Nesting); free = λ t. refl };
  linked = (refl, omega arith, refl, refl, refl);
}
