-- ===== src/Traps/Handler/Ends.antt =====
-- A fault of a process, up to the scheduler.
use xesual.Base.{ℕ, List, ◌∷◌, ◌+◌, ◌*◌, ◌^◌, ◌<◌, ◌≤◌, ◌≡◌, ◌≢◌, ap, ◌∙◌, some, length}
use xesual.Machine.{Machine, out_of_fuel, Cmd, ◌>>◌, pure, and_then}
use xesual.Address.{page_size}
use xesual.PhysicalMemory.Chunks.{Cells, Ordered, Fits}
use xesual.PhysicalMemory.Access.{Holds}
use xesual.Console.{LogLine}
use xesual.Gdt.Table.{TableField, offset_of}
use xesual.Processes.{process_count, is_runnable, schedule_loop}
use xesual.Processes.Fresh.{Section}
use xesual.Processes.Scheduler.{schedule_loop-stuck}
use xesual.Processes.Exit.{Ended, exit_current_process-Ended}
use xesual.Traps.Registers.{InterruptRegisters}
use xesual.Traps.Handler.{trap_handler}
use xesual.Traps.Handler.Faults.{IsFault, trap_handler-exits}

-- A general protection fault or a page fault in the code of the process `p`, whose stack lies above
-- the first free chunk and touches no chunk: whatever `Pause` does, `TrapHandler` comes to it in one
-- state `m'`, in which the page is among the free ones, put in order, the entry is unused and the
-- others are as they were, and the lock of the table is free. From there the loop of the scheduler,
-- at this entry, where it paused, turns for ever, whatever its fuel `rest` is.
pub trap_handler-stuck :
    (printed : LogLine → List ℕ) (fuel i p a k lo : ℕ) (xs : Cells) (registers : InterruptRegisters)
    (m : Machine)
    → Section i 0 m
    → IsFault registers.interrupt_number
    → registers.cs ≢ offset_of TableField.kernel_code
    → (m.cpus i).current_process ≡ some p
    → p < process_count
    → Holds m ((a, k) ∷ xs)
    → 24 ≤ lo
    → Ordered lo ((a, k) ∷ xs)
    → a ≤ (m.processes p).kernel_stack
    → Fits (m.processes p).kernel_stack 1 (a + page_size * k) xs
    → (m.processes p).kernel_stack + page_size < 2 ^ 64
    → length ((a, k) ∷ xs) < fuel
    → (m' : Machine) × ((pause : Cmd (Unit {0}))
        → trap_handler printed pause fuel registers m ≡ (pause >> pure registers) m')
      × Ended i p ((a, k) ∷ xs) m m'
      × ((pause : Cmd (Unit {0})) (rest : ℕ)
          → schedule_loop printed pause rest i p m' ≡ out_of_fuel)
trap_handler-stuck printed fuel i p a k lo xs registers m s f user e h holds room o below fits small
      enough =
    let (m', exits, ended) =
      exit_current_process-Ended fuel i p a k lo xs m s e holds room o below fits small enough in
    (
      m',
      (λ pause.
          trap_handler-exits printed pause fuel i registers m p s.nesting.here f e user
          ∙ ap (λ r. and_then r (λ _. pure registers)) (exits pause)),
      ended,
      (λ pause rest.
          schedule_loop-stuck printed pause rest i p m' h (ap is_runnable ended.unused_entry)),
    )
