-- ===== src/Assembly/Traps/Resume.antt =====
-- The way back from an interrupt: `TrapRet` restores what the frame has.
use xesual.Base.{ℕ, ◌+◌, ◌*◌, ◌^◌, ◌<◌, ◌≤◌, ◌≡◌, inr, sym, ap, ◌∙◌, arith, Option, u64}
use xesual.Traps.{Stub}
use xesual.Traps.Registers.{InterruptRegisters, SyscallRegisters}
use xesual.Assembly.{Core, iretq}
use xesual.Assembly.Stack.{loaded, pop_registers-at}
use xesual.Assembly.Traps.{stub, restored, rax_to_rsp, add_rsp, trap_entry, trap_ret, trap_common}
use xesual.Assembly.Traps.Frame.{
  read_frame, registers_of, Fits, deliver, error_of, number, trap_entry-frame,
}

-- The general registers of a frame.
abbrev pub general_of : InterruptRegisters → SyscallRegisters
general_of r = record {
  r15 = r.r15;
  r14 = r.r14;
  r13 = r.r13;
  r12 = r.r12;
  r11 = r.r11;
  r10 = r.r10;
  r9 = r.r9;
  r8 = r.r8;
  rbp = r.rbp;
  rdi = r.rdi;
  rsi = r.rsi;
  rdx = r.rdx;
  rcx = r.rcx;
  rbx = r.rbx;
  rax = r.rax;
}

abbrev pub restore : InterruptRegisters → Core → Core
restore r c = record c {
  general = general_of r;
  rip = r.rip;
  cs = r.cs;
  rflags = r.rflags;
  rsp = r.rsp;
  ss = r.ss;
}

pub loaded-frame :
    (a : ℕ) (f : ℕ → ℕ) (g : SyscallRegisters) → loaded restored a f g ≡ general_of (read_frame f a)
loaded-frame a f g =
    let at = λ (x k : ℕ) (e : x ≡ a + 8 * k). ap f e in
    λ t. record {
      r15 = at (a) 0 (omega arith) t;
      r14 = at (a + 8) 1 (omega arith) t;
      r13 = at (a + 8 + 8) 2 (omega arith) t;
      r12 = at (a + 8 + 8 + 8) 3 (omega arith) t;
      r11 = at (a + 8 + 8 + 8 + 8) 4 (omega arith) t;
      r10 = at (a + 8 + 8 + 8 + 8 + 8) 5 (omega arith) t;
      r9 = at (a + 8 + 8 + 8 + 8 + 8 + 8) 6 (omega arith) t;
      r8 = at (a + 8 + 8 + 8 + 8 + 8 + 8 + 8) 7 (omega arith) t;
      rbp = at (a + 8 + 8 + 8 + 8 + 8 + 8 + 8 + 8) 8 (omega arith) t;
      rdi = at (a + 8 + 8 + 8 + 8 + 8 + 8 + 8 + 8 + 8) 9 (omega arith) t;
      rsi = at (a + 8 + 8 + 8 + 8 + 8 + 8 + 8 + 8 + 8 + 8) 10 (omega arith) t;
      rdx = at (a + 8 + 8 + 8 + 8 + 8 + 8 + 8 + 8 + 8 + 8 + 8) 11 (omega arith) t;
      rcx = at (a + 8 + 8 + 8 + 8 + 8 + 8 + 8 + 8 + 8 + 8 + 8 + 8) 12 (omega arith) t;
      rbx = at (a + 8 + 8 + 8 + 8 + 8 + 8 + 8 + 8 + 8 + 8 + 8 + 8 + 8) 13 (omega arith) t;
      rax = at (a + 8 + 8 + 8 + 8 + 8 + 8 + 8 + 8 + 8 + 8 + 8 + 8 + 8 + 8) 14 (omega arith) t;
    }

pub trap_ret-restore :
    (a : ℕ) (c : Core) → a + 176 < 2 ^ 64 → c.rsp ≡ a → trap_ret c ≡ restore (read_frame c.mem a) c
unfolding trap_ret
trap_ret-restore a c small e =
    let back : Core = record c {
      general = loaded restored a c.mem c.general;
      rsp = u64 (a + 120 + 16);
    } in
    let at = λ (x k : ℕ) (e : x ≡ a + 8 * k). ap c.mem e in
    ap (λ d. iretq (add_rsp 16 d)) (pop_registers-at restored a c (omega arith) e) ∙ λ t. record c {
      general = loaded-frame a c.mem c.general t;
      rip = at (u64 (a + 120 + 16)) 17 (omega arith) t;
      cs = at (u64 (u64 (a + 120 + 16) + 8)) 18 (omega arith) t;
      rflags = at (u64 (u64 (a + 120 + 16) + 16)) 19 (omega arith) t;
      rsp = at (u64 (u64 (a + 120 + 16) + 24)) 20 (omega arith) t;
      ss = at (u64 (u64 (a + 120 + 16) + 32)) 21 (omega arith) t;
    }

pub read_frame-same :
    (f g : ℕ → ℕ) (a : ℕ)
    → ((x : ℕ) → a ≤ x → x < a + 176 → f x ≡ g x)
    → read_frame f a ≡ read_frame g a
read_frame-same f g a same = λ t. record {
  r15 = same (a + 8 * 0) (omega arith) (omega arith) t;
  r14 = same (a + 8 * 1) (omega arith) (omega arith) t;
  r13 = same (a + 8 * 2) (omega arith) (omega arith) t;
  r12 = same (a + 8 * 3) (omega arith) (omega arith) t;
  r11 = same (a + 8 * 4) (omega arith) (omega arith) t;
  r10 = same (a + 8 * 5) (omega arith) (omega arith) t;
  r9 = same (a + 8 * 6) (omega arith) (omega arith) t;
  r8 = same (a + 8 * 7) (omega arith) (omega arith) t;
  rbp = same (a + 8 * 8) (omega arith) (omega arith) t;
  rdi = same (a + 8 * 9) (omega arith) (omega arith) t;
  rsi = same (a + 8 * 10) (omega arith) (omega arith) t;
  rdx = same (a + 8 * 11) (omega arith) (omega arith) t;
  rcx = same (a + 8 * 12) (omega arith) (omega arith) t;
  rbx = same (a + 8 * 13) (omega arith) (omega arith) t;
  rax = same (a + 8 * 14) (omega arith) (omega arith) t;
  interrupt_number = same (a + 8 * 15) (omega arith) (omega arith) t;
  error_code = same (a + 8 * 16) (omega arith) (omega arith) t;
  rip = same (a + 8 * 17) (omega arith) (omega arith) t;
  cs = same (a + 8 * 18) (omega arith) (omega arith) t;
  rflags = same (a + 8 * 19) (omega arith) (omega arith) t;
  rsp = same (a + 8 * 20) (omega arith) (omega arith) t;
  ss = same (a + 8 * 21) (omega arith) (omega arith) t;
}

-- A call of `TrapHandler` in this state returns its argument, and leaves the frame as it was.
pub record Returns (call : Core → Core) (c : Core) : Type 0 where
  pub argument : (call c).general.rax ≡ c.general.rdi
  pub frame : (x : ℕ) → c.general.rdi ≤ x → x < c.general.rdi + 176 → (call c).mem x ≡ c.mem x

-- Where a macro defines the entry point, the processor pushes an error code just where it takes one
-- to be there, and `TrapHandler` returns its argument and leaves the frame as it was, the interrupted code goes on with all its
-- registers, whatever the handler has done to them: only memory and the bases of `gs` are as the
-- handler left them.
pub trap_common-resumes :
    (s : Stub) (e : Option ℕ) (selector base : ℕ) (call : Core → Core) (c : Core)
    → Fits s e
    → base + 176 < 2 ^ 64
    → Returns call (trap_entry (stub s (deliver selector (base + 176) e c)))
    → let c' = call (trap_entry (stub s (deliver selector (base + 176) e c))) in
      trap_common call (stub s (deliver selector (base + 176) e c))
      ≡ record c { mem = c'.mem; gs_base = c'.gs_base; kernel_gs_base = c'.kernel_gs_base }
unfolding trap_common
trap_common-resumes s e selector base call c fits small returns =
    let d = trap_entry (stub s (deliver selector (base + 176) e c)) in
    let f = trap_entry-frame s e selector base (base + 176) c fits small (inr (omega arith)) in
    let at : d.general.rdi ≡ base = f.1 in
    let read : read_frame d.mem base ≡ registers_of c (error_of e) (number s) =
      ap (read_frame d.mem) (sym at) ∙ f.0 in
    trap_ret-restore base (rax_to_rsp (call d)) small (returns.argument ∙ at)
    ∙ ap (λ r. restore r (call d))
        (read_frame-same (call d).mem d.mem base
            (λ x lo hi. returns.frame x (omega (arith, at)) (omega (arith, at)))
          ∙ read)
