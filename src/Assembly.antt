-- ===== src/Assembly.antt =====
-- The processor as the assembly of Kernel/Traps.S and of `Pause` in Kernel/ProcessManagement.cpp
-- sees it: its registers, and a stack in memory. The fields of `SyscallRegisters` are the general
-- registers but `rsp`.
pub mod Userspace
pub mod Stack
pub mod Traps
pub mod Pause
use xesual.Base.{ℕ, ◌+◌, ◌-◌, ◌^◌, ◌%◌, List, [], ◌∷◌, u64, sub64, update}
use xesual.Traps.Registers.{SyscallRegisters}

pub data Register : Type 0 where
  rax rbx rcx rdx rsi rdi rbp r8 r9 r10 r11 r12 r13 r14 r15 : Register

pub record Core : Type 0 where
  pub general : SyscallRegisters
  pub rsp : ℕ
  pub rip : ℕ
  pub cs : ℕ
  pub rflags : ℕ
  pub ss : ℕ
  pub gs_base : ℕ
  pub kernel_gs_base : ℕ
  pub mem : ℕ → ℕ  -- the 64-bit word at an address

abbrev pub read_register : Register → SyscallRegisters → ℕ
read_register rax g = g.rax
read_register rbx g = g.rbx
read_register rcx g = g.rcx
read_register rdx g = g.rdx
read_register rsi g = g.rsi
read_register rdi g = g.rdi
read_register rbp g = g.rbp
read_register r8 g = g.r8
read_register r9 g = g.r9
read_register r10 g = g.r10
read_register r11 g = g.r11
read_register r12 g = g.r12
read_register r13 g = g.r13
read_register r14 g = g.r14
read_register r15 g = g.r15

abbrev pub write_register : Register → ℕ → SyscallRegisters → SyscallRegisters
write_register rax v g = record g { rax = v }
write_register rbx v g = record g { rbx = v }
write_register rcx v g = record g { rcx = v }
write_register rdx v g = record g { rdx = v }
write_register rsi v g = record g { rsi = v }
write_register rdi v g = record g { rdi = v }
write_register rbp v g = record g { rbp = v }
write_register r8 v g = record g { r8 = v }
write_register r9 v g = record g { r9 = v }
write_register r10 v g = record g { r10 = v }
write_register r11 v g = record g { r11 = v }
write_register r12 v g = record g { r12 = v }
write_register r13 v g = record g { r13 = v }
write_register r14 v g = record g { r14 = v }
write_register r15 v g = record g { r15 = v }

-- `push` of a value, and `pop`.
abbrev pub push : ℕ → Core → Core
push v c = record c { rsp = sub64 c.rsp 8; mem = update c.mem (sub64 c.rsp 8) v }

abbrev pub pop : Register → Core → Core
pop r c = record c { general = write_register r (c.mem c.rsp) c.general; rsp = u64 (c.rsp + 8) }

abbrev pub push_words : List ℕ → Core → Core
push_words [] c = c
push_words (v ∷ vs) c = push_words vs (push v c)

-- Instructions in a row.
abbrev pub push_registers : List Register → Core → Core
push_registers [] c = c
push_registers (r ∷ rs) c = push_registers rs (push (read_register r c.general) c)

abbrev pub pop_registers : List Register → Core → Core
pop_registers [] c = c
pop_registers (r ∷ rs) c = pop_registers rs (pop r c)

-- `ret`
abbrev pub ret : Core → Core
ret c = record c { rip = c.mem c.rsp; rsp = u64 (c.rsp + 8) }

-- `iretq`
abbrev pub iretq : Core → Core
iretq c = record c {
  rip = c.mem c.rsp;
  cs = c.mem (u64 (c.rsp + 8));
  rflags = c.mem (u64 (c.rsp + 16));
  rsp = c.mem (u64 (c.rsp + 24));
  ss = c.mem (u64 (c.rsp + 32));
}

abbrev pub swapgs : Core → Core
swapgs c = record c { gs_base = c.kernel_gs_base; kernel_gs_base = c.gs_base }
