-- ===== src/Processes.antt =====
-- Kernel/ProcessManagement.cpp: the table of processes. The switch of stacks, `Pause`, is assembly
-- and a parameter, as are the addresses of the entry points.
pub mod Table
pub mod Scheduler
pub mod Fresh
pub mod Reuse
pub mod Exit
pub mod First
use xesual.Base.{
  ℕ, List, zero, suc, ◌+◌, ◌-◌, ◌*◌, ◌^◌, Bool, true, false, not, Option, none, some, ◌==◌, ltb,
  if◌then◌else◌, u64, sub64,
}
use xesual.Machine.{
  Machine, ProcessState, ProcessInfo, table_lock, ok, fault, out_of_fuel, Cmd, ◌>>=◌, ◌>>◌, pure,
  when, get, update, unused, fresh, runnable, running,
}
use xesual.Machine.Memory.{store, memset}
use xesual.Address.{page_size, to_physical}
use xesual.Cpu.{this_cpu}
use xesual.Console.{LogLine, found_a_process_to_run, sweeetch, logfn}
use xesual.Spinlock
use xesual.Spinlock.{acquire, release}
use xesual.PhysicalMemory.{allocate_page, free_page}
use xesual.VirtualMemory.{shallow_copy}

abbrev pub process_count : ℕ
process_count = 64

abbrev pub is_unused : ProcessState → Bool
is_unused unused = true
is_unused _ = false

abbrev pub is_runnable : ProcessState → Bool
is_runnable runnable = true
is_runnable _ = false

-- Assignments to an entry of the table.
abbrev pub change_process : ℕ → (ProcessInfo → ProcessInfo) → Cmd (Unit {0})
change_process p f m = ok tt (record m { processes = update m.processes p (f (m.processes p)) })

abbrev pub set_state : ℕ → ProcessState → Cmd (Unit {0})
set_state p s = change_process p (λ i. record i { state = s })

abbrev pub cleared_process : ProcessInfo
cleared_process = record {
  page_table = 0;
  state = unused;
  kernel_stack = 0;
  kernel_task = 0;
  trap_frame = 0;
}

abbrev clear_table : Cmd (Unit {0})
clear_table m =
    ok tt
      (record m { processes = λ p. if ltb p process_count then cleared_process else m.processes p })

unfoldable pub init : Cmd (Unit {0})
init = do Spinlock.init table_lock; clear_table

-- The loop of `allocateProcess`: the first entry from `p` on, of `count`, that is unused.
unfoldable pub find_unused : (count p : ℕ) → (ℕ → ProcessInfo) → Option ℕ
find_unused zero p table = none
find_unused (suc count) p table =
    let rest = find_unused count (suc p) table in if is_unused (table p).state then some p else rest

-- The sizes of `Traps::InterruptRegisters` and of a `KernelContext`, whose `rip` is the last word.
abbrev pub size_of_registers : ℕ
size_of_registers = 22 * 8

abbrev pub size_of_context : ℕ
size_of_context = 7 * 8

abbrev pub rip_of : ℕ → ℕ
rip_of context = context + 48

module _ (trap_ret process_entry_point : ℕ) where
  -- The kernel stack of the process `p`, which is the page at `stack`, from its top down.
  unfoldable pub set_up_stack : (p stack : ℕ) → Cmd (Unit {0})
  set_up_stack p stack = do
    let frame = stack + page_size - size_of_registers
    let return = frame - 8
    let task = return - size_of_context
    change_process p (λ i. record i { trap_frame = frame })
    store return trap_ret
    change_process p (λ i. record i { kernel_task = task })
    memset task size_of_context
    store (rip_of task) process_entry_point

  -- From the release of the lock on.
  unfoldable pub finish_process : (fuel p : ℕ) → Cmd (Option ℕ)
  finish_process fuel p = do
    stack ← allocate_page fuel
    change_process p (λ i. record i { kernel_stack = stack })
    if stack == 0
        then (do set_state p unused; pure none)
        else (do set_up_stack p stack; pure (some p))

  -- What follows the loop, with the entry that it has found.
  unfoldable pub claim_entry : (fuel root : ℕ) → Option ℕ → Cmd (Option ℕ)
  claim_entry fuel root none = do release table_lock; pure none
  claim_entry fuel root (some p) = do
    table ← shallow_copy fuel root
    change_process p (λ i. record i { page_table = table })
    set_state p fresh
    release table_lock
    finish_process fuel p

  unfoldable pub allocate_process : (fuel : ℕ) → Cmd (Option ℕ)
  allocate_process fuel = do
    acquire table_lock
    m ← get
    claim_entry fuel m.kernel_page_table (find_unused process_count 0 m.processes)

-- What a new process runs first, at the address of `ProcessEntryPoint`.
unfoldable pub run_process_entry_point : Cmd (Unit {0})
run_process_entry_point = release table_lock

unfoldable pub free_process : (fuel p : ℕ) → Cmd (Unit {0})
free_process fuel p = do
  acquire table_lock
  set_state p unused
  m ← get
  free_page fuel (m.processes p).kernel_stack
  release table_lock

-- `thisCPU()->currentProcess`; both pointers may be null.
abbrev pub current_process : Cmd ℕ
current_process m = elim (this_cpu m) [
  | none ↦ fault
  | some i ↦ elim (m.cpus i).current_process [ none ↦ fault | some p ↦ ok p m ]
]

abbrev pub set_current : ℕ → Option ℕ → Cmd (Unit {0})
set_current i p m =
    ok tt (record m { cpus = update m.cpus i (record (m.cpus i) { current_process = p }) })

abbrev pub load_cr3 : ℕ → Cmd (Unit {0})
load_cr3 a m = ok tt (record m { cr3 = a })

abbrev sti : Cmd (Unit {0})
sti m = ok tt (record m { interrupts = true })

module _ (pause : Cmd (Unit {0})) where
  -- `Pause` writes to the process that it leaves.
  unfoldable pub enter_scheduler_from_process : Cmd (Unit {0})
  enter_scheduler_from_process = current_process >>= λ _. pause

  unfoldable pub exit_current_process : (fuel : ℕ) → Cmd (Unit {0})
  exit_current_process fuel = do
    p ← current_process
    free_process fuel p
    enter_scheduler_from_process

module _ (printed : LogLine → List ℕ) (pause : Cmd (Unit {0})) where
  -- The part of `schedule` that is done for the process it has found.
  unfoldable pub run_process : (i p : ℕ) → Cmd (Unit {0})
  run_process i p = do
    logfn (printed found_a_process_to_run)
    set_current i (some p)
    m ← get
    load_cr3 (to_physical m.hhdm_offset (m.processes p).page_table)
    set_state p running
    logfn (printed sweeetch)
    pause

  -- The inner loop of `schedule` on processor `i`, on fuel. Its step is `p = p++`, which leaves `p`
  -- as it is: the assignment comes after the increment.
  unfoldable pub schedule_loop : (fuel i p : ℕ) → Cmd (Unit {0})
  schedule_loop zero i p = λ _. out_of_fuel
  schedule_loop (suc fuel) i p = if not (ltb p process_count) then pure tt else do
    m ← get
    when (is_runnable (m.processes p).state) (run_process i p)
    schedule_loop fuel i p

  -- `while (true)`, on fuel for its rounds.
  unfoldable pub schedule_rounds : (rounds fuel i : ℕ) → Cmd (Unit {0})
  schedule_rounds zero fuel i = λ _. out_of_fuel
  schedule_rounds (suc rounds) fuel i = do
    sti
    acquire table_lock
    schedule_loop fuel i 0
    release table_lock
    schedule_rounds rounds fuel i

  unfoldable pub schedule : (rounds fuel : ℕ) → Cmd (Unit {0})
  schedule rounds fuel m = elim (this_cpu m) [
    | none ↦ fault
    | some i ↦ (do set_current i none; schedule_rounds rounds fuel i) m
  ]
