-- ===== src/Assembly/Traps/Frame.antt =====
-- What a gate's entry point leaves on the stack is what `TrapHandler` reads as its registers.
use xesual.Base.{
  ℕ, ◌+◌, ◌-◌, ◌*◌, ◌/◌, ◌%◌, ◌^◌, ◌<◌, ◌≤◌, ◌⊎◌, inl, inr, ◌≡◌, refl, ap, ◌∙◌, arith, true, false,
  Option, none, some, List, [], ◌∷◌, ◌==◌, if◌then◌else◌,
}
use xesual.Traps.{Stub, isr, irq}
use xesual.Traps.Registers.{InterruptRegisters}
use xesual.Assembly.{Core, push_words, push_registers}
use xesual.Assembly.Stack.{pushed, pushed-outside, pushed-word, push_words-at}
use xesual.Assembly.Traps.{is_generated, with_error_code, stub, saved, cld, rsp_to_rdi, trap_entry}

-- `InterruptRegisters` in memory.
abbrev pub read_frame : (ℕ → ℕ) → ℕ → InterruptRegisters
read_frame f a = record {
  r15 = f (a + 8 * 0);
  r14 = f (a + 8 * 1);
  r13 = f (a + 8 * 2);
  r12 = f (a + 8 * 3);
  r11 = f (a + 8 * 4);
  r10 = f (a + 8 * 5);
  r9 = f (a + 8 * 6);
  r8 = f (a + 8 * 7);
  rbp = f (a + 8 * 8);
  rdi = f (a + 8 * 9);
  rsi = f (a + 8 * 10);
  rdx = f (a + 8 * 11);
  rcx = f (a + 8 * 12);
  rbx = f (a + 8 * 13);
  rax = f (a + 8 * 14);
  interrupt_number = f (a + 8 * 15);
  error_code = f (a + 8 * 16);
  rip = f (a + 8 * 17);
  cs = f (a + 8 * 18);
  rflags = f (a + 8 * 19);
  rsp = f (a + 8 * 20);
  ss = f (a + 8 * 21);
}

-- The vector that an entry point is for, and the error code that there is.
abbrev pub number : Stub → ℕ
number (isr n) = n
number (irq n) = 32 + n

abbrev pub error_of : Option ℕ → ℕ
error_of none = 0
error_of (some e) = e

abbrev pub error_words : Option ℕ → List ℕ
error_words none = []
error_words (some e) = e ∷ []

-- An entry point that a macro defines, and the processor pushes an error code just where the entry point takes one to be there.
abbrev pub Fits : Stub → Option ℕ → Type 0
Fits (isr n) none = (is_generated n ≡ true) × (with_error_code n ≡ false)
Fits (isr n) (some e) = (is_generated n ≡ true) × (with_error_code n ≡ true)
Fits (irq n) none = n < 16
Fits (irq n) (some e) = ⊥

-- The processor at an interrupt, on the stack that it goes to: the interrupt flag is bit 9.
abbrev pub at_gate : (selector stack : ℕ) → Core → Core
at_gate selector stack c = record c {
  rsp = stack;
  cs = selector;
  rflags = if c.rflags / 2 ^ 9 % 2 == 1 then c.rflags - 2 ^ 9 else c.rflags;
}

abbrev pub deliver : (selector stack : ℕ) → Option ℕ → Core → Core
deliver selector stack e c =
    push_words (error_words e)
      (push_words (c.ss ∷ c.rsp ∷ c.rflags ∷ c.cs ∷ c.rip ∷ []) (at_gate selector stack c))

stub-pushes :
    (s : Stub) (e : Option ℕ) (c : Core)
    → Fits s e
    → stub s (push_words (error_words e) c) ≡ push_words (error_of e ∷ number s ∷ []) c
unfolding stub
stub-pushes (isr n) none c h = rw h.1 refl
stub-pushes (isr n) (some e) c h = rw h.1 refl
stub-pushes (irq n) none c h = refl
stub-pushes (irq n) (some e) c h = absurd h

-- The words of the frame, in the order in which they are pushed.
abbrev pub frame_words : Core → (error number : ℕ) → List ℕ
frame_words c e n =
    c.ss ∷ c.rsp ∷ c.rflags ∷ c.cs ∷ c.rip ∷ e ∷ n ∷ c.general.rax ∷ c.general.rbx ∷ c.general.rcx
    ∷ c.general.rdx ∷ c.general.rsi ∷ c.general.rdi ∷ c.general.rbp ∷ c.general.r8 ∷ c.general.r9
    ∷ c.general.r10 ∷ c.general.r11 ∷ c.general.r12 ∷ c.general.r13 ∷ c.general.r14 ∷ c.general.r15
    ∷ []

-- The state at the call.
abbrev pub entered : (selector base error number : ℕ) → Core → Core
entered selector base e n c =
    rsp_to_rdi
      (cld (record (at_gate selector base c) { mem = pushed (frame_words c e n) base c.mem }))

pub trap_entry-entered :
    (s : Stub) (e : Option ℕ) (selector base : ℕ) (c : Core)
    → Fits s e
    → base + 176 < 2 ^ 64
    → trap_entry (stub s (deliver selector (base + 176) e c))
      ≡ entered selector base (error_of e) (number s) c
unfolding trap_entry
trap_entry-entered s e selector base c fits small =
    ap (λ d. rsp_to_rdi (cld (push_registers saved d))) (stub-pushes s e _ fits)
    ∙ ap (λ d. rsp_to_rdi (cld d))
        (push_words-at (frame_words c (error_of e) (number s)) base
          (at_gate selector (base + 176) c) (omega arith) (omega arith))

-- The registers of the interrupted code, as `TrapHandler` is to see them.
abbrev pub registers_of : Core → (error number : ℕ) → InterruptRegisters
registers_of c e n = record {
  r15 = c.general.r15;
  r14 = c.general.r14;
  r13 = c.general.r13;
  r12 = c.general.r12;
  r11 = c.general.r11;
  r10 = c.general.r10;
  r9 = c.general.r9;
  r8 = c.general.r8;
  rbp = c.general.rbp;
  rdi = c.general.rdi;
  rsi = c.general.rsi;
  rdx = c.general.rdx;
  rcx = c.general.rcx;
  rbx = c.general.rbx;
  rax = c.general.rax;
  interrupt_number = n;
  error_code = e;
  rip = c.rip;
  cs = c.cs;
  rflags = c.rflags;
  rsp = c.rsp;
  ss = c.ss;
}

pub read_frame-pushed :
    (c : Core) (e n base : ℕ) (f : ℕ → ℕ)
    → read_frame (pushed (frame_words c e n) base f) base ≡ registers_of c e n
read_frame-pushed c e n base f =
    let w = λ (i : ℕ) (h : i < 22). pushed-word (frame_words c e n) base i f h in
    λ t. record {
      r15 = w 0 (omega arith) t;
      r14 = w 1 (omega arith) t;
      r13 = w 2 (omega arith) t;
      r12 = w 3 (omega arith) t;
      r11 = w 4 (omega arith) t;
      r10 = w 5 (omega arith) t;
      r9 = w 6 (omega arith) t;
      r8 = w 7 (omega arith) t;
      rbp = w 8 (omega arith) t;
      rdi = w 9 (omega arith) t;
      rsi = w 10 (omega arith) t;
      rdx = w 11 (omega arith) t;
      rcx = w 12 (omega arith) t;
      rbx = w 13 (omega arith) t;
      rax = w 14 (omega arith) t;
      interrupt_number = w 15 (omega arith) t;
      error_code = w 16 (omega arith) t;
      rip = w 17 (omega arith) t;
      cs = w 18 (omega arith) t;
      rflags = w 19 (omega arith) t;
      rsp = w 20 (omega arith) t;
      ss = w 21 (omega arith) t;
    }

-- At the call of `TrapHandler` its argument points to an `InterruptRegisters` with the registers of
-- the interrupted code, the vector and the error code, where a macro defines the entry point and the
-- processor pushes an error code just where it takes one to be there. The frame ends where the stack does, and the words outside it
-- are as they were.
pub trap_entry-frame :
    (s : Stub) (e : Option ℕ) (selector base a : ℕ) (c : Core)
    → Fits s e
    → base + 176 < 2 ^ 64
    → (a < base) ⊎ (base + 176 ≤ a)
    → let c' = trap_entry (stub s (deliver selector (base + 176) e c)) in
      (read_frame c'.mem c'.general.rdi ≡ registers_of c (error_of e) (number s))
      × (c'.general.rdi ≡ base)
      × (c'.rsp ≡ base)
      × (c'.mem a ≡ c.mem a)
trap_entry-frame s e selector base a c fits small out =
    rw (trap_entry-entered s e selector base c fits small) (
      read_frame-pushed c (error_of e) (number s) base c.mem,
      refl,
      refl,
      pushed-outside (frame_words c (error_of e) (number s)) base a c.mem
          (elim out [ inl below ↦ inl below | inr above ↦ inr (omega arith) ]),
    )
