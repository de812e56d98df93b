-- ===== src/Assembly/Pause/Switch.antt =====
-- A thread of the kernel that pauses goes on where it was, once another one pauses in its favour.
use xesual.Base.{
  ℕ, ◌+◌, ◌*◌, ◌^◌, ◌<◌, ◌≤◌, ◌≡◌, ◌≢◌, ◌⊎◌, inl, inr, refl, sym, ap, ◌∙◌, arith, List, [], ◌∷◌,
  u64, update, ==_ne, ==_refl,
}
use xesual.Traps.Registers.{SyscallRegisters}
use xesual.Assembly.{Core, ret, pop_registers}
use xesual.Assembly.Stack.{
  loaded, pop_registers-at, pushed, pushed-word, pushed-outside, push_words-at,
}
use xesual.Assembly.Pause.{popped_registers, switch_stacks, pause}

-- `KernelContext` in memory.
pub record KernelContext : Type 0 where
  pub rbx : ℕ
  pub rbp : ℕ
  pub r12 : ℕ
  pub r13 : ℕ
  pub r14 : ℕ
  pub r15 : ℕ
  pub rip : ℕ

abbrev pub read_context : (ℕ → ℕ) → ℕ → KernelContext
read_context f a = record {
  rbx = f (a + 8 * 0);
  rbp = f (a + 8 * 1);
  r12 = f (a + 8 * 2);
  r13 = f (a + 8 * 3);
  r14 = f (a + 8 * 4);
  r15 = f (a + 8 * 5);
  rip = f (a + 8 * 6);
}

-- The six registers that a call preserves, and where it returns to.
abbrev pub context_of : (rip : ℕ) → SyscallRegisters → KernelContext
context_of rip g = record {
  rbx = g.rbx;
  rbp = g.rbp;
  r12 = g.r12;
  r13 = g.r13;
  r14 = g.r14;
  r15 = g.r15;
  rip = rip;
}

abbrev pub with_context : KernelContext → SyscallRegisters → SyscallRegisters
with_context k g = record g {
  rbx = k.rbx;
  rbp = k.rbp;
  r12 = k.r12;
  r13 = k.r13;
  r14 = k.r14;
  r15 = k.r15;
}

abbrev pushed_words : SyscallRegisters → List ℕ
pushed_words g = g.r15 ∷ g.r14 ∷ g.r13 ∷ g.r12 ∷ g.rbp ∷ g.rbx ∷ []

-- The memory after a `Pause` whose stack pointer was at `base + 48`.
abbrev pub paused : (base : ℕ) → Core → ℕ → ℕ
paused base c = update (pushed (pushed_words c.general) base c.mem) c.general.rdi base

loaded-context :
    (a : ℕ) (f : ℕ → ℕ) (g : SyscallRegisters)
    → loaded popped_registers a f g ≡ with_context (read_context f a) g
loaded-context a f g =
    let at = λ (x k : ℕ) (e : x ≡ a + 8 * k). ap f e in
    λ t. record g {
      rbx = at a 0 (omega arith) t;
      rbp = at (a + 8) 1 (omega arith) t;
      r12 = at (a + 8 + 8) 2 (omega arith) t;
      r13 = at (a + 8 + 8 + 8) 3 (omega arith) t;
      r14 = at (a + 8 + 8 + 8 + 8) 4 (omega arith) t;
      r15 = at (a + 8 + 8 + 8 + 8 + 8) 5 (omega arith) t;
    }

-- The state that `Pause` leaves: the context at `yieldTo` taken up, and the address of that of the
-- caller written to `*yieldFrom`.
pub pause-switches :
    (base to : ℕ) (c : Core)
    → c.rsp ≡ base + 48
    → base + 48 < 2 ^ 64
    → c.general.rsi ≡ to
    → to + 56 < 2 ^ 64
    → let k = read_context (paused base c) to in
      pause c ≡ record c {
        general = with_context k c.general;
        rip = k.rip;
        rsp = to + 56;
        mem = paused base c;
      }
unfolding pause
pause-switches base to c at small dest room =
    let f = paused base c in
    let s : Core = record c { rsp = c.general.rsi; mem = f } in
    ap (λ d. ret (pop_registers popped_registers (switch_stacks d)))
      (push_words-at (pushed_words c.general) base c (omega arith) (at ∙ omega arith))
    ∙ ap ret (pop_registers-at popped_registers to s (omega arith) dest)
    ∙ λ t. record c {
      general = loaded-context to f c.general t;
      rip = f ((let e : to + 8 * 6 ≡ to + 8 * 6 = refl in e) t);
      rsp = (let e : u64 (to + 8 * 6 + 8) ≡ to + 56 = omega arith in e) t;
      mem = f;
    }

-- The context that `Pause` leaves on the caller's stack.
pub read_context-paused :
    (base : ℕ) (c : Core)
    → (c.general.rdi < base) ⊎ (base + 56 ≤ c.general.rdi)
    → read_context (paused base c) base ≡ context_of (c.mem (base + 48)) c.general
read_context-paused base c out =
    let f = pushed (pushed_words c.general) base c.mem in
    let at = λ (x : ℕ) (lo : base ≤ x) (hi : x < base + 56). apart x lo hi in
    let w = λ (i : ℕ) (h : i < 6).
      at (base + 8 * i) (omega arith) (omega arith)
      ∙ pushed-word (pushed_words c.general) base i c.mem h in
    λ t. record {
      rbx = w 0 (omega arith) t;
      rbp = w 1 (omega arith) t;
      r12 = w 2 (omega arith) t;
      r13 = w 3 (omega arith) t;
      r14 = w 4 (omega arith) t;
      r15 = w 5 (omega arith) t;
      rip =
          (at (base + 48) (omega arith) (omega arith)
              ∙ pushed-outside (pushed_words c.general) base (base + 48) c.mem (inr (omega arith)))
            t;
    }
  where
    apart :
        (x : ℕ)
        → base ≤ x
        → x < base + 56
        → paused base c x ≡ pushed (pushed_words c.general) base c.mem x
    apart x lo hi =
        rw (==_ne c.general.rdi x (λ e. elim out [ inl p ↦ omega arith | inr p ↦ omega arith ]))
          refl

read_context-same :
    (f g : ℕ → ℕ) (a : ℕ)
    → ((x : ℕ) → a ≤ x → x < a + 56 → f x ≡ g x)
    → read_context f a ≡ read_context g a
read_context-same f g a same = λ t. record {
  rbx = same (a + 8 * 0) (omega arith) (omega arith) t;
  rbp = same (a + 8 * 1) (omega arith) (omega arith) t;
  r12 = same (a + 8 * 2) (omega arith) (omega arith) t;
  r13 = same (a + 8 * 3) (omega arith) (omega arith) t;
  r14 = same (a + 8 * 4) (omega arith) (omega arith) t;
  r15 = same (a + 8 * 5) (omega arith) (omega arith) t;
  rip = same (a + 8 * 6) (omega arith) (omega arith) t;
}

-- A `Pause` on another stack leaves a context alone.
pub paused-apart :
    (base x : ℕ) (c : Core)
    → (x < base) ⊎ (base + 48 ≤ x)
    → c.general.rdi ≢ x
    → paused base c x ≡ c.mem x
paused-apart base x c out ne = rw (==_ne c.general.rdi x ne) (
    pushed-outside (pushed_words c.general) base x c.mem
      (elim out [ inl p ↦ inl p | inr p ↦ inr (omega arith) ]))

-- A thread pauses in a state `c`, with its stack pointer at `base + 48`, where its return address
-- is; `yieldFrom` is not in its context. The context is left at `base`, which is written to
-- `*yieldFrom`. When another thread pauses later, in a state `d` in which those seven words are as
-- they were, in favour of what was written there, the first one goes on behind its call, with its
-- stack and the registers that a call preserves.
pub pause-resumes :
    (base base' to : ℕ) (c d : Core)
    → c.rsp ≡ base + 48
    → base + 48 < 2 ^ 64
    → c.general.rsi ≡ to
    → to + 56 < 2 ^ 64
    → (c.general.rdi < base) ⊎ (base + 56 ≤ c.general.rdi)
    → d.rsp ≡ base' + 48
    → base' + 48 < 2 ^ 64
    → base + 56 < 2 ^ 64
    → d.general.rsi ≡ (pause c).mem c.general.rdi
    → ((x : ℕ) → base ≤ x → x < base + 56 → d.mem x ≡ (pause c).mem x)
    → (base' + 48 ≤ base) ⊎ (base + 56 ≤ base')
    → (d.general.rdi < base) ⊎ (base + 56 ≤ d.general.rdi)
    → ((pause d).rip ≡ c.mem c.rsp)
      × ((pause d).rsp ≡ c.rsp + 8)
      × ((pause d).general ≡ with_context (context_of (c.mem c.rsp) c.general) d.general)
pause-resumes base base' to c d at small dest room out at' small' room' back same apart out' =
    let e = pause-switches base to c at small dest room in
    let written : (pause c).mem c.general.rdi ≡ base =
      ap (λ s. s.mem c.general.rdi) e ∙ rw (==_refl c.general.rdi) refl in
    let e' = pause-switches base' base d at' small' (back ∙ written) room' in
    let kept : read_context (paused base' d) base ≡ context_of (c.mem (base + 48)) c.general =
      read_context-same (paused base' d) (paused base c) base (λ x lo hi.
        paused-apart base' x d
          (elim apart [ inl p ↦ inr (omega arith) | inr p ↦ inl (omega arith) ])
          (λ q. elim out' [ inl p ↦ omega arith | inr p ↦ omega arith ])
        ∙ same x lo hi
        ∙ ap (λ s. s.mem x) e)
      ∙ read_context-paused base c out in
    let whole : read_context (paused base' d) base ≡ context_of (c.mem c.rsp) c.general =
      kept ∙ ap (λ r. context_of (c.mem r) c.general) (sym at) in
    (
      ap (λ s. s.rip) e' ∙ ap (λ k. k.rip) whole,
      ap (λ s. s.rsp) e' ∙ omega (arith, at),
      ap (λ s. s.general) e' ∙ ap (λ k. with_context k d.general) whole,
    )
