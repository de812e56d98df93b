-- ===== src/Traps/Panic.antt =====
-- Kernel/Panic!!.cpp: the last lines that a processor logs.
pub mod Stops
use xesual.Base.{ℕ, false, List}
use xesual.Machine.{Machine, hang, Cmd, ◌>>=◌, ◌>>◌}
use xesual.Cpu.{set_interrupts}
use xesual.Console.{
  Why, LogLine, fatal, from_r15, from_r11, from_rbp, interrupt_is, from_rip, logfn,
}
use xesual.Traps.Registers.{InterruptRegisters}

module _ (printed : LogLine → List ℕ) where
  unfoldable pub dump_registers : InterruptRegisters → Cmd (Unit {0})
  dump_registers r = do
    logfn (printed (from_r15 r.r15 r.r14 r.r13 r.r12))
    logfn (printed (from_r11 r.r11 r.r10 r.r9 r.r8))
    logfn (printed (from_rbp r.rbp r.rdi r.rsi r.rdx r.rcx r.rbx r.rax))
    logfn (printed (interrupt_is r.interrupt_number r.error_code))
    logfn (printed (from_rip r.rip r.cs r.rflags r.rsp r.ss))

  -- `PanicExclamationExclamation`, which halts for ever.
  unfoldable pub panic : Why → InterruptRegisters → Cmd (Unit {0})
  unfolding dump_registers
  panic why registers = do
    logfn (printed (fatal why))
    dump_registers registers
    set_interrupts false
    λ _. hang
