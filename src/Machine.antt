-- ===== src/Machine.antt =====
-- The state that the kernel's code runs on, and commands over it: the words of memory, the
-- registers of the executing processor, and the globals of the kernel's namespaces
-- (Kernel/PhysicalMemoryManagement.cpp, Kernel/Alloc.cpp, Kernel/ProcessManagement.h).
pub mod Memory
pub mod Keeps
pub mod Total
pub use xesual.Base.{update}
use xesual.Base.{ℕ, zero, suc, ◌≡◌, Bool, Option, none, some, List, ◌==◌, if◌then◌else◌}
use xesual.Gdt.Table.{Table, SegmentRegisters}
use xesual.Traps.{IdtEntry, IdtPointer}

-- The spinlocks of the kernel: `PhysicalMemoryManagement::Memory.lock`, `Alloc::Memory.lock`,
-- `ProcessTableSpinlock` and `logLock`.
pub data Lock : Type 0 where
  page_lock heap_lock table_lock log_lock : Lock

-- `CPUState`, less its descriptor table, which is apart from it in `tables`.
pub record CpuState : Type 0 where
  pub apic_id : ℕ
  pub cli_count : ℕ  -- int32_t, as its bit pattern
  pub were_interrupts_enabled : Bool
  pub current_process : Option ℕ  -- the index in `ProcessTable`
  pub interrupt_stack : ℕ
  pub user_stack : ℕ
  pub scheduler_task : ℕ

-- `ProcessInfo::State`
pub data ProcessState : Type 0 where
  unused fresh runnable running : ProcessState

-- `ProcessInfo`
pub record ProcessInfo : Type 0 where
  pub page_table : ℕ
  pub state : ProcessState
  pub kernel_stack : ℕ
  pub kernel_task : ℕ
  pub trap_frame : ℕ

pub record Machine : Type 0 where
  pub mem : ℕ → ℕ  -- the 64-bit word at an address
  pub mmio : ℕ → ℕ  -- the 32-bit device register at an address
  pub msr : ℕ → ℕ  -- the 64-bit model-specific registers
  pub interrupts : Bool  -- the flag 0x200 of `eflags`
  pub hhdm_offset : ℕ  -- HigherHalfDirectMapOffset
  pub held : Lock → ℕ  -- Spinlock::held
  pub using_lock : Bool  -- PhysicalMemoryManagement::Memory.usingLock
  pub page_list : ℕ  -- PhysicalMemoryManagement::Memory.freeList
  pub heap_list : ℕ  -- Alloc::Memory.freeList
  pub cpu_count : ℕ  -- CPUCount
  pub cpus : ℕ → CpuState  -- CPUs
  pub processes : ℕ → ProcessInfo  -- ProcessTable
  pub kernel_page_table : ℕ  -- KernelPageTable
  pub lapic : ℕ  -- LocalAPIC::lapic
  pub cr3 : ℕ  -- the physical address of the root page table
  pub goto_address : ℕ → ℕ  -- limine_smp_info::goto_address
  pub cpus_address : ℕ  -- where the array CPUs stands
  pub tables : ℕ → Table  -- CPUState::table
  pub segments : SegmentRegisters
  pub idt_entries : ℕ → IdtEntry  -- IDTEntries
  pub idtr : IdtPointer
  pub out_bytes : List (ℕ × ℕ)  -- the bytes written to ports, with the ports, the last in front
  pub display : ℕ → ℕ  -- the 16-bit device register at an address
  pub config_address : ℕ  -- the 32-bit word last written to the port 0xCF8
  pub config_space : ℕ → ℕ  -- the 32-bit word that the port 0xCFC reads at such an address

-- How a command ends: with a result, by a null dereference, or never, either because it spins on
-- a lock that nobody else releases or because its fuel is not enough.
pub data Run {ℓ} (A : Type ℓ) : Type ℓ where
  ok : A → Machine → Run A
  fault : Run A
  hang : Run A
  out_of_fuel : Run A

abbrev pub Cmd {ℓ} : Type ℓ → Type ℓ
Cmd A = Machine → Run A

abbrev pub pure {ℓ} : {A : Type ℓ} → A → Cmd A
pure = ok

abbrev pub and_then {ℓ κ} : {A : Type ℓ} {B : Type κ} → Run A → (A → Cmd B) → Run B
and_then (ok a m) k = k a m
and_then fault k = fault
and_then hang k = hang
and_then out_of_fuel k = out_of_fuel

infixl 5 ◌>>=◌
abbrev pub ◌>>=◌ {ℓ κ} : {A : Type ℓ} {B : Type κ} → Cmd A → (A → Cmd B) → Cmd B
c >>= k = λ m. and_then (c m) k

abbrev pub skip : Cmd (Unit {0})
skip = pure tt

abbrev pub when : Bool → Cmd (Unit {0}) → Cmd (Unit {0})
when b c = if b then c else skip

abbrev pub get : Cmd Machine
get m = ok m m

abbrev pub put : Machine → Cmd (Unit {0})
put m _ = ok tt m

infixl 5 ◌>>◌
abbrev pub ◌>>◌ {ℓ} : {B : Type ℓ} → Cmd (Unit {0}) → Cmd B → Cmd B
c >> k = c >>= λ _. k

-- `for (int i = start; i < start + count; ++i)`
unfoldable pub for_loop : (count start : ℕ) → (ℕ → Cmd (Unit {0})) → Cmd (Unit {0})
for_loop zero i body = skip
for_loop (suc count) i body = do body i; for_loop count (suc i) body
