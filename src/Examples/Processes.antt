-- ===== src/Examples/Processes.antt =====
-- The table of processes, faults, and the local APIC.
use xesual.Base.{ℕ, List, [], ◌≡◌, refl, arith, some, none, inr, ◌==◌, if◌then◌else◌}
use xesual.Machine.{
  Machine, ProcessInfo, fresh, runnable, running, unused, ok, out_of_fuel, skip, hang,
}
use xesual.Smp.{lapic_id}
use xesual.Cpu.{this_cpu}
use xesual.Cpu.Nesting.{Nesting}
use xesual.Console.{LogLine}
use xesual.Cpu.Nesting.{Nesting}
use xesual.Processes.{schedule_loop}
use xesual.Processes.Scheduler.{schedule_loop-stuck}
use xesual.Traps.{irq}
use xesual.Traps.Vectors.{stub_of}
use xesual.Traps.Registers.{InterruptRegisters}
use xesual.Traps.Handler.{trap_handler}
use xesual.Traps.Handler.Faults.{trap_handler-panics}
use xesual.LocalApic.{
  init_lapic, register, lvt0_timer, lvt3_error, spurious_interrupt_vector, task_priority,
}
use xesual.LocalApic.Vectors.{vector_in, init_lapic-vectors}
use xesual.Address.{to_physical}
use xesual.Base.{true, Bool, ltb}
use xesual.Machine.{table_lock, log_lock}
use xesual.Processes.{schedule, run_process_entry_point}
use xesual.Spinlock.Sections.{switched}
use xesual.Processes.Scheduler.Starts.{from_pause, schedule-starts}
use xesual.Examples.Machines.{shared, no_process, idle_cpu}

-- Process 0 runs, 1 waits to be run, and the others are not there.
abbrev table_of_two : ℕ → ProcessInfo
table_of_two p = record no_process {
  state = if p == 0 then running else if p == 1 then runnable else unused;
}

abbrev two_processes : Machine
two_processes = record shared { processes = table_of_two }

-- Every entry is in use.
abbrev all_used : Machine
all_used = record shared { processes = λ p. record no_process { state = fresh } }

all_used-Nesting : Nesting 0 all_used
unfolding this_cpu lapic_id
all_used-Nesting = record { here = refl; room = omega arith; off = λ h. absurd (h refl) }

-- Empty lines.
abbrev pub unprinted : LogLine → List ℕ
unprinted line = []

-- Process 1 could run, but is never looked at.
schedule_loop-stuck_example : schedule_loop unprinted skip 1000 0 0 two_processes ≡ out_of_fuel
schedule_loop-stuck_example =
    schedule_loop-stuck unprinted skip 1000 0 0 two_processes (omega arith) refl

-- A page fault in the code of a process, and the same with the kernel's code segment.
abbrev pub user_fault : InterruptRegisters
user_fault = record {
  r15 = 0;
  r14 = 0;
  r13 = 0;
  r12 = 0;
  r11 = 0;
  r10 = 0;
  r9 = 0;
  r8 = 0;
  rbp = 0;
  rdi = 0;
  rsi = 0;
  rdx = 0;
  rcx = 0;
  rbx = 0;
  rax = 0;
  interrupt_number = 14;
  error_code = 0;
  rip = 0;
  cs = 0x2b;
  rflags = 0;
  rsp = 0;
  ss = 0;
}

abbrev kernel_fault : InterruptRegisters
kernel_fault = record user_fault { cs = 8 }

abbrev in_process : Machine
in_process = record two_processes { cpus = λ i. record idle_cpu { current_process = some 0 } }

in_process-Nesting : Nesting 0 in_process
unfolding this_cpu lapic_id
in_process-Nesting = record { here = refl; room = omega arith; off = λ h. absurd (h refl) }

trap_handler-panics_example : trap_handler unprinted skip 1 kernel_fault in_process ≡ hang
trap_handler-panics_example =
    trap_handler-panics unprinted skip 1 0 kernel_fault in_process in_process-Nesting (inr refl)
      (inr refl)

-- A command that two reads still show.
abbrev arrives : ℕ → Bool
arrives k = ltb k 2

init_lapic-vectors_example :
    (m' : Machine) × (init_lapic 3 arrives shared ≡ ok tt m')
    × (stub_of (vector_in m' lvt0_timer) ≡ some (irq 0))
    × (stub_of (vector_in m' lvt3_error) ≡ none)
    × (stub_of (vector_in m' spurious_interrupt_vector) ≡ none)
    × (register m' task_priority ≡ 0)
init_lapic-vectors_example = init_lapic-vectors 2 3 arrives shared refl (omega arith)

-- Every process could run.
abbrev all_runnable : Machine
all_runnable = record shared {
  processes = λ p. record no_process { state = runnable; page_table = 0x5000 };
}

schedule-starts_example :
    (m' : Machine) × (schedule unprinted skip 1 1 all_runnable ≡ from_pause unprinted skip 0 0 0 m')
    × ((m'.cpus 0).current_process ≡ some 0)
    × (m'.processes 0 ≡ record (all_runnable.processes 0) { state = running })
    × (m'.processes 1 ≡ all_runnable.processes 1)
    × (m'.cr3 ≡ 0x5000)
    × (m'.held table_lock ≡ 1)
    × (m'.held log_lock ≡ 0)
    × (m'.interrupts ≡ true)
    × (run_process_entry_point m' ≡ ok tt (switched 0 table_lock 0 m'))
unfolding this_cpu lapic_id to_physical
schedule-starts_example =
    schedule-starts unprinted skip 0 0 0 1 all_runnable
      (record { here = refl; room = omega arith; off = λ h. absurd (h refl) }) refl refl refl refl
      (λ e. omega arith)
