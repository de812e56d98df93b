-- ===== src/Assembly/Traps.antt =====
-- Kernel/Traps.S: the entry points of the gates, `TrapCommon`, `TrapRet` and `SyscallHandler`. A
-- call of a C function is a parameter: the state that it returns in.
pub mod Resume
pub mod Halt
pub mod Frame
pub mod Syscall
pub mod Codes
pub mod Lapic
use xesual.Base.{
  ℕ, bit_or, bit_and, ◌+◌, ◌-◌, ◌*◌, ◌^◌, ◌<◌, ◌%◌, ◌/◌, ◌||◌, ◌&&◌, Bool, true, false, List, [],
  ◌∷◌, ◌==◌, ltb, not, if◌then◌else◌, leb, u64, sub64, update, Option, none, some,
}
use xesual.Traps.{Stub, isr, irq, syscall_interrupt}
use xesual.Traps.Registers.{SyscallRegisters}
use xesual.Assembly.{
  Register, rax, rbx, rcx, rdx, rsi, rdi, rbp, r8, r9, r10, r11, r12, r13, r14, r15, Core, push,
  pop, push_words, push_registers, pop_registers, iretq, swapgs, read_register, write_register,
}

-- The registers that are saved, in the order of the instructions, and in that of the restoring ones.
abbrev pub saved : List Register
saved = rax ∷ rbx ∷ rcx ∷ rdx ∷ rsi ∷ rdi ∷ rbp ∷ r8 ∷ r9 ∷ r10 ∷ r11 ∷ r12 ∷ r13 ∷ r14 ∷ r15 ∷ []

abbrev pub restored : List Register
restored =
    r15 ∷ r14 ∷ r13 ∷ r12 ∷ r11 ∷ r10 ∷ r9 ∷ r8 ∷ rbp ∷ rdi ∷ rsi ∷ rdx ∷ rcx ∷ rbx ∷ rax ∷ []

-- The stubs that the macros define: the exceptions with an error code have one pushed already.
abbrev pub with_error_code : ℕ → Bool
with_error_code n = n == 8 || (leb 10 n && leb n 14)

-- The vectors of the entry points that the two macros for exceptions define.
abbrev pub is_generated : ℕ → Bool
is_generated n = (ltb n 32 && not (n == 2)) || n == syscall_interrupt

abbrev pub stub_words : Stub → List ℕ
stub_words (isr n) = if with_error_code n then n ∷ [] else 0 ∷ n ∷ []
stub_words (irq n) = 0 ∷ (32 + n) ∷ []

unfoldable pub stub : Stub → Core → Core
stub s = push_words (stub_words s)

-- `_isr123`, behind its first four instructions, which leave the registers as they were. The
-- last operand has no `$`, so that it is the word in memory at this address.
abbrev pub clock_interrupt : ℕ
clock_interrupt = 123

-- The direction flag is bit 10.
abbrev pub cld : Core → Core
cld c = record c { rflags = if c.rflags / 2 ^ 10 % 2 == 1 then c.rflags - 2 ^ 10 else c.rflags }

abbrev pub rsp_to_rdi : Core → Core
rsp_to_rdi c = record c { general = write_register rdi c.rsp c.general }

abbrev pub rax_to_rsp : Core → Core
rax_to_rsp c = record c { rsp = c.general.rax }

abbrev pub add_rsp : ℕ → Core → Core
add_rsp n c = record c { rsp = u64 (c.rsp + n) }

-- From `TrapRet` on.
unfoldable pub trap_ret : Core → Core
trap_ret c = iretq (add_rsp 16 (pop_registers restored c))

-- `TrapCommon` up to its call.
unfoldable pub trap_entry : Core → Core
trap_entry c = rsp_to_rdi (cld (push_registers saved c))

unfoldable pub trap_common : (call : Core → Core) → Core → Core
unfolding trap_entry trap_ret
trap_common call c = trap_ret (rax_to_rsp (call (trap_entry c)))

-- `_isr123`: a copy of `r12` is pushed and popped again.
unfoldable pub clock_stub : (call : Core → Core) → Core → Core
unfolding trap_common
clock_stub call c =
    let c = record c { mem = update c.mem (sub64 c.rsp 8) c.general.r12 } in
    if c.mem (u64 (c.rsp + 8)) == 8
    then iretq c
    else trap_common call (push (c.mem clock_interrupt) (push 0 c))

-- `_isr126`, and `_isr124`, which also writes `cr3` back to itself: `symbol` is the address of the
-- variable `lapic`. With the state comes the write of 32 bits to a device register, its address and
-- its value.
unfoldable pub no_op_stub : (symbol : ℕ) → Core → Core × (ℕ × ℕ)
no_op_stub symbol c =
    let c = record c { mem = update c.mem (sub64 c.rsp 8) c.general.r12 } in
    (iretq c, (u64 (c.mem symbol + 0xb0), 0))

abbrev pub user_stack_offset : ℕ
user_stack_offset = 208

abbrev pub kernel_interrupt_stack_offset : ℕ
kernel_interrupt_stack_offset = 24

-- `mov %rsp, %gs:UserStackOffset` and `mov %gs:KernelInterruptStackOffset, %rsp`
abbrev save_user_stack : Core → Core
save_user_stack c = record c { mem = update c.mem (u64 (c.gs_base + user_stack_offset)) c.rsp }

abbrev load_stack : (offset : ℕ) → Core → Core
load_stack offset c = record c { rsp = c.mem (u64 (c.gs_base + offset)) }

-- `sysretq`: some flags are fixed, and `cs` and `ss` get their values for ring 3 from a register.
abbrev pub sysretq : (user_cs user_ss : ℕ) → Core → Core
sysretq user_cs user_ss c = record c {
  rip = c.general.rcx;
  rflags = bit_or (bit_and c.general.r11 0x3c7fd7) 2;
  cs = user_cs;
  ss = user_ss;
}

unfoldable pub syscall_entry : Core → Core
syscall_entry c =
    rsp_to_rdi
      (push_registers saved (load_stack kernel_interrupt_stack_offset (save_user_stack (swapgs c))))

unfoldable pub syscall_handler : (call : Core → Core) (user_cs user_ss : ℕ) → Core → Core
unfolding syscall_entry
syscall_handler call user_cs user_ss c = sysretq user_cs user_ss (
    swapgs
      (load_stack user_stack_offset (pop_registers restored (rax_to_rsp (call (syscall_entry c))))))
