-- ===== src/Console/Reentry.antt =====
-- An interrupt in the middle of a line that is logged.
use xesual.Base.{ℕ, ◌+◌, ◌≡◌, ◌≢◌, refl, ◌∙◌, arith, true, false, some, List, ==_ne}
use xesual.Machine.{Machine, log_lock, ok, hang, Cmd}
use xesual.Smp.{lapic_id}
use xesual.Cpu.{this_cpu}
use xesual.Cpu.Nesting.{Nesting, this_cpu_same}
use xesual.Spinlock.{acquire}
use xesual.Spinlock.Sections.{switched, acquire_free, acquire_held, switched-Nesting}
use xesual.LocalApic.{irq0, irq_timer}
use xesual.Traps.{syscall_interrupt}
use xesual.Traps.Registers.{InterruptRegisters}
use xesual.Traps.Handler.{double_fault, general_protection_fault, page_fault, trap_handler}
use xesual.Console.{LogLine, logfn, lock_log}

-- The interrupts that `TrapHandler` only logs.
pub record IsLogged (n : ℕ) : Type 0 where
  pub no_syscall : n ≢ syscall_interrupt
  pub no_timer : n ≢ irq0 + irq_timer
  pub no_double_fault : n ≢ double_fault
  pub no_protection_fault : n ≢ general_protection_fault
  pub no_page_fault : n ≢ page_fault

-- The processor enters an interrupt gate with the interrupts off.
abbrev pub interrupted : Machine → Machine
interrupted m = record m { interrupts = false }

-- The lock of the log is taken with the interrupts as they were, so they stay on while a line goes
-- out; an interrupt that comes then, and is one that is only logged, never returns.
pub trap_handler-logfn :
    (printed : LogLine → List ℕ) (pause : Cmd (Unit {0})) (fuel i : ℕ)
    (registers : InterruptRegisters) (m : Machine)
    → Nesting i m
    → m.held log_lock ≡ 0
    → m.interrupts ≡ true
    → IsLogged registers.interrupt_number
    → let inside = switched i log_lock 1 m in
      (lock_log m ≡ ok tt inside)
      × (inside.interrupts ≡ true)
      × (trap_handler printed pause fuel registers (interrupted inside) ≡ hang)
unfolding lock_log logfn trap_handler lapic_id
trap_handler-logfn printed pause fuel i registers m n unheld on l = (
  acquire_free i log_lock m n unheld,
  on,
  rw
      (
        ==_ne registers.interrupt_number syscall_interrupt l.no_syscall,
        ==_ne registers.interrupt_number (irq0 + irq_timer) l.no_timer,
        ==_ne registers.interrupt_number double_fault l.no_double_fault,
        ==_ne registers.interrupt_number general_protection_fault l.no_protection_fault,
        ==_ne registers.interrupt_number page_fault l.no_page_fault,
        stuck,
      )
      refl,
)
  where
    here : this_cpu (interrupted (switched i log_lock 1 m)) ≡ some i
    here =
        this_cpu_same (switched i log_lock 1 m) (interrupted (switched i log_lock 1 m)) refl refl
          (λ k. refl)
        ∙ (switched-Nesting i log_lock 1 m n).here

    stuck : acquire log_lock (interrupted (switched i log_lock 1 m)) ≡ hang
    stuck = acquire_held i log_lock (interrupted (switched i log_lock 1 m)) here (λ e. omega arith)
