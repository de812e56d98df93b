-- ===== src/Examples/Ends.antt =====
-- A page fault in the process 1, whose stack is the page at 0x20000.
use xesual.Base.{ℕ, ◌≡◌, inr, refl, arith, some, []}
use xesual.Machine.{Machine, out_of_fuel, Cmd, ◌>>◌, pure}
use xesual.Smp.{lapic_id}
use xesual.Cpu.{this_cpu}
use xesual.Cpu.Nesting.{Nesting}
use xesual.PhysicalMemory.Access.{Holds}
use xesual.Processes.{schedule_loop}
use xesual.Processes.Exit.{Ended}
use xesual.Traps.Handler.{trap_handler}
use xesual.Traps.Handler.Ends.{trap_handler-stuck}
use xesual.Examples.Machines.{idle_cpu, eight, eight-Holds}
use xesual.Examples.Processes.{unprinted, user_fault}
use xesual.Examples.Launch.{all_running}

abbrev in_second : Machine
in_second = record all_running { cpus = λ i. record idle_cpu { current_process = some 1 } }

in_second-Nesting : Nesting 0 in_second
unfolding this_cpu lapic_id
in_second-Nesting = record { here = refl; room = omega arith; off = λ h. absurd (h refl) }

in_second-Holds : Holds in_second eight
in_second-Holds = record {
  ready = record { usable = inr (0, in_second-Nesting); free = λ t. refl };
  linked = eight-Holds.linked;
}

trap_handler-stuck_example :
    (m' : Machine) × ((pause : Cmd (Unit {0}))
      → trap_handler unprinted pause 2 user_fault in_second ≡ (pause >> pure user_fault) m')
    × Ended 0 1 eight in_second m'
    × ((pause : Cmd (Unit {0})) (rest : ℕ)
        → schedule_loop unprinted pause rest 0 1 m' ≡ out_of_fuel)
trap_handler-stuck_example =
    trap_handler-stuck unprinted 2 0 1 0x10000 8 0x10000 [] user_fault in_second
      (record { nesting = in_second-Nesting; lock = refl }) (inr refl) (λ e. omega arith) refl
      (omega arith) in_second-Holds (omega arith) (omega arith, omega arith, omega arith, tt)
      (omega arith) (omega arith) (omega arith) (omega arith)
