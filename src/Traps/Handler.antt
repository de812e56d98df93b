-- ===== src/Traps/Handler.antt =====
-- `TrapHandler` and `KernelSyscallHandler` of Kernel/Traps.cpp. The switch of stacks is a parameter.
pub mod Faults
pub mod Ends
use xesual.Base.{ℕ, List, ◌+◌, Bool, true, false, ◌||◌, Option, none, some, ◌==◌, if◌then◌else◌}
use xesual.Machine.{Machine, ok, fault, hang, Cmd, ◌>>=◌, ◌>>◌, pure}
use xesual.Cpu.{this_cpu}
use xesual.Gdt.Table.{TableField, offset_of}
use xesual.LocalApic.{irq0, irq_timer, acknowledge_interrupt}
use xesual.Processes.{exit_current_process}
use xesual.Console.{
  Why, double_fault_in_kernel, gpf_in_kernel_code, page_fault_in_kernel_code, LogLine,
  unhandled_interrupt, system_call, logfn,
}
use xesual.Traps.{syscall_interrupt}
use xesual.Traps.Registers.{InterruptRegisters, SyscallRegisters}
use xesual.Traps.Panic.{panic}

-- `Exceptions`
abbrev pub double_fault : ℕ
double_fault = 8

abbrev pub general_protection_fault : ℕ
general_protection_fault = 13

abbrev pub page_fault : ℕ
page_fault = 14

-- `thisCPU()->currentProcess == nullptr || registers->cs == offsetof(GDT::Table, kernelCode)`
abbrev pub or_fault : Option ℕ → Cmd ℕ
or_fault none m = fault
or_fault (some i) m = ok i m

abbrev pub is_kernel : (cs : ℕ) → Option ℕ → Bool
is_kernel cs none = true
is_kernel cs (some p) = cs == offset_of TableField.kernel_code

unfoldable pub in_kernel : (cs : ℕ) → Cmd Bool
in_kernel cs m = (do i ← or_fault (this_cpu m); pure (is_kernel cs (m.cpus i).current_process)) m

module _ (printed : LogLine → List ℕ) (pause : Cmd (Unit {0})) (fuel : ℕ) where
  -- A fault of the kernel, and one of a process, which is ended.
  unfoldable pub handle_fault : Why → InterruptRegisters → Cmd (Unit {0})
  handle_fault why registers = do
    kernel ← in_kernel registers.cs
    (if kernel then panic printed why registers else pure tt)
    exit_current_process pause fuel

  unfoldable pub trap_handler : InterruptRegisters → Cmd InterruptRegisters
  trap_handler registers =
      let n = registers.interrupt_number in
      if n == syscall_interrupt
      then pure registers
      else if n == irq0 + irq_timer
      then (do acknowledge_interrupt; pure registers)
      else if n == double_fault
      then (do panic printed double_fault_in_kernel registers; pure registers)
      else if n == general_protection_fault
      then (do handle_fault gpf_in_kernel_code registers; pure registers)
      else if n == page_fault
      then (do handle_fault page_fault_in_kernel_code registers; pure registers)
      else (do logfn (printed (unhandled_interrupt n)); pure registers)

  unfoldable pub kernel_syscall_handler : SyscallRegisters → Cmd SyscallRegisters
  kernel_syscall_handler registers = do logfn (printed (system_call registers.rax)); pure registers
