-- ===== src/Assembly/Userspace.antt =====
-- `MyFirstUserspace` of Kernel/ProcessManagement.cpp, the program of the first process, which makes
-- two system calls.
use xesual.Base.{ℕ, ◌+◌, ◌≡◌, u64, bit_and, bit_or}
use xesual.Assembly.{Core, rax, write_register}
use xesual.Assembly.Traps.{syscall_entry, syscall_handler, kernel_interrupt_stack_offset}
use xesual.Assembly.Traps.Syscall.{syscall, ReturnsFrom}

-- An instruction of `n` bytes.
abbrev past : ℕ → Core → Core
past n c = record c { rip = u64 (c.rip + n) }

abbrev pub nop : Core → Core
nop = past 1

abbrev pub mov_rax : ℕ → Core → Core
mov_rax v c = past 7 (record c { general = write_register rax v c.general })

-- What `SyscallHandler` is entered with, and how it comes back: `call` is `KernelSyscallHandler`.
abbrev pub at_syscall : Core → Core
at_syscall c = syscall (past 2 c)

abbrev pub system_call : (call : Core → Core) (user_cs user_ss : ℕ) → Core → Core
system_call call user_cs user_ss c = syscall_handler call user_cs user_ss (at_syscall c)

-- The seven instructions, in two parts.
abbrev pub first_part : Core → Core
first_part c = mov_rax 1 (nop c)

abbrev pub second_part : Core → Core
second_part c = mov_rax 2 (nop c)

unfoldable pub my_first_userspace : (call : Core → Core) (user_cs user_ss : ℕ) → Core → Core
my_first_userspace call user_cs user_ss c = nop (
    system_call call user_cs user_ss
      (second_part (system_call call user_cs user_ss (first_part c))))

-- A call of `KernelSyscallHandler` that returns its argument, and leaves the frame and the fields of
-- the processor's state that `SyscallHandler` uses as they were.
pub record Handled (this : ℕ) (call : Core → Core) (c : Core) : Type 0 where
  pub returns : ReturnsFrom this call c
  pub stack :
      (call c).mem (this + kernel_interrupt_stack_offset)
      ≡ c.mem (this + kernel_interrupt_stack_offset)

module _ (user_cs user_ss : ℕ) (call : Core → Core) where
  -- The state behind a system call in the state `c`.
  abbrev pub behind : Core → Core
  behind c = record (at_syscall c) {
    rflags = bit_or (bit_and c.rflags 0x3c7fd7) 2;
    cs = user_cs;
    ss = user_ss;
    mem = (call (syscall_entry (at_syscall c))).mem;
  }
