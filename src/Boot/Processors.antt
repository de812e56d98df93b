-- ===== src/Boot/Processors.antt =====
-- `initializeProcessors` of Kernel/KernelMain.cpp: the array `CPUs`, a page for it, and its entries.
pub mod Entries
use xesual.Base.{
  ℕ, zero, suc, ◌+◌, ◌*◌, ◌/◌, Bool, true, false, not, none, List, [], ◌∷◌, length, ◌==◌,
  if◌then◌else◌, ltb, u32, update,
}
use xesual.Machine.{Machine, CpuState, ok, fault, Cmd, ◌>>=◌, ◌>>◌, skip, when}
use xesual.Machine.Memory.{memset}
use xesual.Address.{page_size}
use xesual.Gdt.{become}
use xesual.Gdt.Table.{Table}
use xesual.PhysicalMemory.{allocate_page, there_is_now_more_than_one_processor}
use xesual.Boot.{SmpResponse, size_of_cpu_state, cpu_address}

abbrev pub set_cpu_count : ℕ → Cmd (Unit {0})
set_cpu_count n m = ok tt (record m { cpu_count = n })

abbrev pub set_cpus_address : ℕ → Cmd (Unit {0})
set_cpus_address a m = ok tt (record m { cpus_address = a })

-- A state, and the beginning of a table, full of zeros.
abbrev pub cleared_front : CpuState → CpuState
cleared_front c = record c {
  apic_id = 0;
  cli_count = 0;
  were_interrupts_enabled = false;
  current_process = none;
  interrupt_stack = 0;
}

abbrev pub cleared_cpu : CpuState → CpuState
cleared_cpu c = record (cleared_front c) { user_stack = 0; scheduler_task = 0 }

abbrev pub cleared_entries : Table → Table
cleared_entries t = record t {
  null_entry = become 0;
  kernel_code = become 0;
  kernel_data = become 0;
  user_code32 = become 0;
}

abbrev pub cleared_table : Table → Table
cleared_table t = record (cleared_entries t) {
  user_data32 = become 0;
  user_code64 = become 0;
  user_data64 = become 0;
  the_entry_for_the_tss = record {
    limit_low = 0;
    base_low = 0;
    base_mid = 0;
    access = 0;
    limit_high = 0;
    flags = 0;
    base_high = 0;
    base_higher = 0;
    reserved = 0;
  };
  the_tss_entry_itself = record {
    reserved0 = 0;
    stack_pointers = λ i. 0;
    reserved1 = 0;
    interrupt_stack_table = λ i. 0;
    reserved2 = 0;
    reserved3 = 0;
    iomap_base = 0;
  };
}

-- The states that have room in a page.
abbrev pub whole_states : ℕ
whole_states = page_size / size_of_cpu_state

-- `memset(CPUs, 0, PageSize)`: 18 states, and of one more the 64 bytes up to its fourth descriptor.
abbrev pub cleared_cpus : Machine → Machine
cleared_cpus m = record m {
  cpus = λ i.
      if ltb i whole_states
      then cleared_cpu (m.cpus i)
      else if i == whole_states
      then cleared_front (m.cpus i)
      else m.cpus i;
  tables = λ i.
      if ltb i whole_states
      then cleared_table (m.tables i)
      else if i == whole_states
      then cleared_entries (m.tables i)
      else m.tables i;
}

abbrev pub clear_cpus : Cmd (Unit {0})
clear_cpus m = ok tt (cleared_cpus m)

-- Assignments to the fields of `CPUs[i]`.
abbrev pub set_cpu : ℕ → (CpuState → CpuState) → Cmd (Unit {0})
set_cpu i f m =
    if cpu_address m.cpus_address i == 0
    then fault
    else ok tt (record m { cpus = update m.cpus i (f (m.cpus i)) })

abbrev pub entered : (lapic_id : ℕ) → CpuState → CpuState
entered lapic_id c = record c { apic_id = lapic_id; cli_count = 1; current_process = none }

abbrev pub set_goto_address : (i address : ℕ) → Cmd (Unit {0})
set_goto_address i address m = ok tt (record m { goto_address = update m.goto_address i address })

module _ (other_processor_main : ℕ) where
  -- The loop over the processors from `i` on.
  unfoldable pub enter_processors : (bsp_lapic_id i : ℕ) → List ℕ → Cmd (Unit {0})
  enter_processors bsp i [] = skip
  enter_processors bsp i (lapic_id ∷ ids) = do
    set_cpu i (entered lapic_id)
    when (not (lapic_id == bsp)) (set_goto_address i other_processor_main)
    enter_processors bsp (suc i) ids

  unfoldable pub initialize_processors : (fuel : ℕ) → SmpResponse → Cmd (Unit {0})
  unfolding enter_processors
  initialize_processors fuel resp = do
    set_cpu_count (u32 (length resp.lapic_ids))
    page ← allocate_page fuel
    set_cpus_address page
    memset page page_size
    clear_cpus
    there_is_now_more_than_one_processor
    enter_processors resp.bsp_lapic_id 0 resp.lapic_ids
