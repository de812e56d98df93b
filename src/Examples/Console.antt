-- ===== src/Examples/Console.antt =====
-- Lines that are logged, and the registers of a processor.
use xesual.Base.{ℕ, ◌≡◌, refl, arith, true, List, [], ◌∷◌}
use xesual.Machine.{log_lock, ok, hang, skip}
use xesual.Spinlock.Sections.{switched}
use xesual.Gdt.Table.{TableField, offset_of}
use xesual.Gdt.Table.Selectors.{syscall_cs}
use xesual.Cpu.Registers.{gs_base, kernel_gs_base, lstar, efer, star_register}
use xesual.Cpu.Registers.Syscall.{set_registers, set_registers_lem}
use xesual.Traps.Registers.{InterruptRegisters}
use xesual.Traps.Handler.{trap_handler}
use xesual.Console.{logfn, lock_log}
use xesual.Console.Line.{sent, sent_after, shown, logfn-shown}
use xesual.Console.Reentry.{IsLogged, interrupted, trap_handler-logfn}
use xesual.Examples.Machines.{shared, shared-Nesting}
use xesual.Examples.Processes.{user_fault}

-- "Hi" and a line feed.
abbrev hi : List ℕ
hi = 72 ∷ 105 ∷ 10 ∷ []

logfn-shown_example :
    (logfn hi shared
      ≡ ok tt (
          switched 0 log_lock 0
            (record (switched 0 log_lock 1 shared) { out_bytes = sent_after [] (sent hi) })))
    × (shown (sent hi) ≡ hi)
logfn-shown_example = logfn-shown 0 hi shared shared-Nesting refl

-- A breakpoint, which is only logged.
abbrev breakpoint : InterruptRegisters
breakpoint = record user_fault { interrupt_number = 3 }

breakpoint-IsLogged : IsLogged 3
breakpoint-IsLogged = record {
  no_syscall = λ e. omega arith;
  no_timer = λ e. omega arith;
  no_double_fault = λ e. omega arith;
  no_protection_fault = λ e. omega arith;
  no_page_fault = λ e. omega arith;
}

trap_handler-logfn_example :
    (lock_log shared ≡ ok tt (switched 0 log_lock 1 shared))
    × ((switched 0 log_lock 1 shared).interrupts ≡ true)
    × (trap_handler (λ line. hi) skip 1 breakpoint (interrupted (switched 0 log_lock 1 shared))
        ≡ hang)
trap_handler-logfn_example =
    trap_handler-logfn (λ line. hi) skip 1 0 breakpoint shared shared-Nesting refl refl
      breakpoint-IsLogged

set_registers_lem_example :
    let m' = set_registers 0xffff_8000_0020_0000 0xffff_ffff_8000_1000 shared in
    (m'.msr gs_base ≡ 0xffff_8000_0020_0000)
    × (m'.msr kernel_gs_base ≡ 0xffff_8000_0020_0000)
    × (m'.msr lstar ≡ 0xffff_ffff_8000_1000)
    × (syscall_cs (m'.msr star_register) ≡ offset_of TableField.kernel_code)
    × (m'.msr efer ≡ 1)
set_registers_lem_example =
    set_registers_lem 0xffff_8000_0020_0000 0xffff_ffff_8000_1000 shared (omega arith) (omega arith)
      (omega arith)
