-- ===== src/Assembly/Traps/Syscall.antt =====
-- A system call, from the instruction in a process to the one behind it.
use xesual.Base.{
  ℕ, ◌+◌, ◌*◌, ◌^◌, ◌<◌, ◌≤◌, ◌≡◌, ◌⊎◌, ap, ◌∙◌, arith, List, [], ◌∷◌, u64, update, ==_ne,
}
use xesual.Traps.Registers.{SyscallRegisters}
use xesual.Assembly.{Core, push_registers, swapgs}
use xesual.Assembly.Stack.{pushed, push_words-at}
use xesual.Assembly.Traps.{
  saved, rsp_to_rdi, load_stack, user_stack_offset, kernel_interrupt_stack_offset, syscall_entry,
}

-- The instruction `syscall`; `SyscallHandler` stands at the address that it goes to.
abbrev pub syscall : Core → Core
syscall c = record c { general = record c.general { rcx = c.rip; r11 = c.rflags } }

-- The words that are pushed.
abbrev pub saved_words : SyscallRegisters → List ℕ
saved_words g =
    g.rax ∷ g.rbx ∷ g.rcx ∷ g.rdx ∷ g.rsi ∷ g.rdi ∷ g.rbp ∷ g.r8 ∷ g.r9 ∷ g.r10 ∷ g.r11 ∷ g.r12
    ∷ g.r13 ∷ g.r14 ∷ g.r15 ∷ []

-- The state at the call: `this` is the address of the processor's state.
abbrev pub called : (base this : ℕ) → Core → Core
called base this c = rsp_to_rdi (record (swapgs c) {
  rsp = base;
  mem = pushed (saved_words c.general) base (update c.mem (this + user_stack_offset) c.rsp);
})

-- Where the bases of `gs` and the state's `interruptStack` lead.
pub record OnStack (base this : ℕ) (c : Core) : Type 0 where
  pub state : c.kernel_gs_base ≡ this
  pub small : this + 216 < 2 ^ 64
  pub stack : c.mem (this + kernel_interrupt_stack_offset) ≡ base + 120
  pub room : base + 120 < 2 ^ 64
  pub apart : (this + user_stack_offset < base) ⊎ (base + 120 ≤ this + user_stack_offset)

pub syscall_entry-called :
    (base this : ℕ) (c : Core) → OnStack base this c → syscall_entry c ≡ called base this c
unfolding syscall_entry
syscall_entry-called base this c o =
    let at : u64 (c.kernel_gs_base + user_stack_offset) ≡ this + user_stack_offset =
      omega (arith, o.state, o.small) in
    let at' : u64 (c.kernel_gs_base + kernel_interrupt_stack_offset)
        ≡ this + kernel_interrupt_stack_offset =
      omega (arith, o.state, o.small) in
    let kept_word : update c.mem (this + user_stack_offset) c.rsp
          (this + kernel_interrupt_stack_offset)
        ≡ base + 120 =
      rw
        (==_ne (this + user_stack_offset) (this + kernel_interrupt_stack_offset) (λ e. omega arith))
        o.stack in
    ap
      (λ x. rsp_to_rdi (
        push_registers saved (
          load_stack kernel_interrupt_stack_offset
            (record (swapgs c) { mem = update c.mem x c.rsp }))))
      at
    ∙ ap
        (λ x. rsp_to_rdi (
          push_registers saved
            (record (swapgs c) { mem = update c.mem (this + user_stack_offset) c.rsp; rsp = x })))
        (ap (update c.mem (this + user_stack_offset) c.rsp) at' ∙ kept_word)
    ∙ ap rsp_to_rdi (
        push_words-at (saved_words c.general) base
          (record (swapgs c) {
            mem = update c.mem (this + user_stack_offset) c.rsp;
            rsp = base + 120;
          })
          (let r = o.room in omega arith) ((let r : base + 120 ≡ base + 8 * 15 = omega arith in r)))

-- A call of `KernelSyscallHandler` in this state returns its argument, and leaves the frame, the
-- word for the stack of the process and the bases of `gs` as they were.
pub record ReturnsFrom (this : ℕ) (call : Core → Core) (c : Core) : Type 0 where
  pub argument : (call c).general.rax ≡ c.general.rdi
  pub frame : (x : ℕ) → c.general.rdi ≤ x → x < c.general.rdi + 120 → (call c).mem x ≡ c.mem x
  pub user_stack : (call c).mem (this + user_stack_offset) ≡ c.mem (this + user_stack_offset)
  pub gs : (call c).gs_base ≡ c.gs_base
  pub kernel_gs : (call c).kernel_gs_base ≡ c.kernel_gs_base
