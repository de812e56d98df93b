-- ===== src/Assembly/Pause.antt =====
-- `Pause` of Kernel/ProcessManagement.cpp: from one kernel stack to another.
pub mod Switch
pub mod First
use xesual.Base.{ℕ, ◌+◌, ◌^◌, ◌%◌, List, [], ◌∷◌, u64, update}
use xesual.Traps.Registers.{SyscallRegisters}
use xesual.Assembly.{
  Register, rbx, rbp, r12, r13, r14, r15, Core, push_registers, pop_registers, ret,
}

abbrev pub pushed_registers : List Register
pushed_registers = r15 ∷ r14 ∷ r13 ∷ r12 ∷ rbp ∷ rbx ∷ []

abbrev pub popped_registers : List Register
popped_registers = rbx ∷ rbp ∷ r12 ∷ r13 ∷ r14 ∷ r15 ∷ []

-- `movq %rsp, (%rdi)` and `movq %rsi, %rsp`
abbrev pub switch_stacks : Core → Core
switch_stacks c = record c { mem = update c.mem c.general.rdi c.rsp; rsp = c.general.rsi }

-- `rdi` is `yieldFrom`, and `rsi` is `yieldTo`.
unfoldable pub pause : Core → Core
pause c = ret (pop_registers popped_registers (switch_stacks (push_registers pushed_registers c)))
