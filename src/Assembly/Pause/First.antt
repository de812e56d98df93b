-- ===== src/Assembly/Pause/First.antt =====
-- The way of a new process from `Pause` into ring 3: over `ProcessEntryPoint` and `TrapRet`, along
-- the stack that `allocateProcess` and `createFirstProcess` prepare.
use xesual.Base.{
  ℕ, ◌+◌, ◌*◌, ◌^◌, ◌<◌, ◌≤◌, ◌≡◌, ◌⊎◌, inl, inr, refl, sym, ap, ◌∙◌, arith, bit_or, ==_refl,
}
use xesual.Gdt.{ring3}
use xesual.Gdt.Table.{TableField, offset_of}
use xesual.Machine.{Machine, Run, ok, fault, hang, out_of_fuel}
use xesual.Address.{page_size}
use xesual.Traps.Registers.{InterruptRegisters}
use xesual.Processes.{set_up_stack}
use xesual.Processes.Table.{prepared, set_up_stack-prepared}
use xesual.Processes.First.{fill_frame, entrypoint}
use xesual.Processes.First.Frame.{filled, fill_frame-filled, filled-word}
use xesual.Assembly.{Core, ret}
use xesual.Assembly.Traps.{trap_ret}
use xesual.Assembly.Traps.Frame.{read_frame}
use xesual.Assembly.Traps.Resume.{restore, trap_ret-restore, read_frame-same}
use xesual.Assembly.Pause.{pause}
use xesual.Assembly.Pause.Switch.{paused, pause-switches, paused-apart}

-- The state that a run ends in, if it ends in one.
abbrev after : Machine → Run (Unit {0}) → Machine
after m (ok a m') = m'
after m fault = m
after m hang = m
after m out_of_fuel = m

-- The frame of a process that starts.
abbrev pub first_registers : InterruptRegisters
first_registers = record {
  r15 = 0;
  r14 = 0;
  r13 = 0;
  r12 = 0;
  r11 = 0;
  r10 = 0;
  r9 = 0;
  r8 = 0;
  rbp = 0;
  rdi = 0;
  rsi = 0;
  rdx = 0;
  rcx = 0;
  rbx = 0;
  rax = 0;
  interrupt_number = 0;
  error_code = 0;
  rip = 0x1000;
  cs = 0x2b;
  rflags = 0x200;
  rsp = 0;
  ss = 0x33;
}

read_frame-filled : (f : ℕ → ℕ) (frame : ℕ) → read_frame (filled f frame) frame ≡ first_registers
read_frame-filled f frame =
    let w = λ (k : ℕ) (h : k < 22). filled-word f frame k h in
    λ t. record {
      r15 = w 0 (omega arith) t;
      r14 = w 1 (omega arith) t;
      r13 = w 2 (omega arith) t;
      r12 = w 3 (omega arith) t;
      r11 = w 4 (omega arith) t;
      r10 = w 5 (omega arith) t;
      r9 = w 6 (omega arith) t;
      r8 = w 7 (omega arith) t;
      rbp = w 8 (omega arith) t;
      rdi = w 9 (omega arith) t;
      rsi = w 10 (omega arith) t;
      rdx = w 11 (omega arith) t;
      rcx = w 12 (omega arith) t;
      rbx = w 13 (omega arith) t;
      rax = w 14 (omega arith) t;
      interrupt_number = w 15 (omega arith) t;
      error_code = w 16 (omega arith) t;
      rip = w 17 (omega arith) t;
      cs = w 18 (omega arith) t;
      rflags = w 19 (omega arith) t;
      rsp = w 20 (omega arith) t;
      ss = w 21 (omega arith) t;
    }

filled-below : (f : ℕ → ℕ) (frame x : ℕ) → x < frame → filled f frame x ≡ f x
filled-below f frame x h = ground arith

-- The words of the stack of the new process.
module _ (address entry p stack : ℕ) (m : Machine) where
  abbrev stack_mem : ℕ → ℕ
  stack_mem = filled (prepared address entry p stack m).mem (stack + 3920)

  entry_word : stack_mem (stack + 3904) ≡ entry
  entry_word =
      filled-below (prepared address entry p stack m).mem (stack + 3920) (stack + 3904)
        (omega arith)
      ∙ rw (==_refl (stack + 3904)) refl

  return_word : stack_mem (stack + 3912) ≡ address
  return_word =
      filled-below (prepared address entry p stack m).mem (stack + 3920) (stack + 3912)
        (omega arith)
      ∙ ground arith

  -- Where the frame was filled, on the prepared stack.
  stack_mem-filled :
      (m₁ m₂ : Machine)
      → set_up_stack address entry p stack m ≡ ok tt m₁
      → fill_frame (m₁.processes p).trap_frame m₁ ≡ ok tt m₂
      → (m₂.mem ≡ stack_mem) × ((m₁.processes p).kernel_task ≡ stack + 3856)
  stack_mem-filled m₁ m₂ made filled_in =
      let e : m₁ ≡ prepared address entry p stack m =
        ap (after m) (sym made ∙ set_up_stack-prepared address entry p stack m) in
      let frame : (m₁.processes p).trap_frame ≡ stack + 3920 =
        ap (λ k. (k.processes p).trap_frame) e ∙ rw (==_refl p) refl in
      (
        ap (λ k. k.mem)
              (ap (after m) (sym filled_in ∙ fill_frame-filled (m₁.processes p).trap_frame m₁))
            ∙ (λ t. filled (e t).mem (frame t)),
        ap (λ k. (k.processes p).kernel_task) e ∙ rw (==_refl p) refl,
      )

-- The scheduler pauses in favour of a process whose stack and frame are as `set_up_stack` and
-- `fill_frame` leave them, on a stack and with a `yieldFrom` outside these words; the process's entry
-- point, whose call is a parameter, leaves the stack pointer and the words from there on as they
-- were. Then `Pause` goes to the entry point, whose return goes to `TrapRet`, and that into the
-- process: at its entry point in ring 3, with interrupts on and every general register 0.
pub pause-enters_process :
    (address entry p stack base : ℕ) (m m₁ m₂ : Machine) (c : Core) (call : Core → Core)
    → set_up_stack address entry p stack m ≡ ok tt m₁
    → fill_frame (m₁.processes p).trap_frame m₁ ≡ ok tt m₂
    → stack + page_size < 2 ^ 64
    → c.rsp ≡ base + 48
    → base + 48 < 2 ^ 64
    → c.general.rsi ≡ (m₁.processes p).kernel_task
    → ((x : ℕ) → stack ≤ x → x < stack + page_size → c.mem x ≡ m₂.mem x)
    → (base + 48 ≤ stack) ⊎ (stack + page_size ≤ base)
    → (c.general.rdi < stack) ⊎ (stack + page_size ≤ c.general.rdi)
    → (call (pause c)).rsp ≡ (pause c).rsp
    → ((x : ℕ)
        → (pause c).rsp ≤ x
        → x < stack + page_size
        → (call (pause c)).mem x ≡ (pause c).mem x)
    → ((pause c).rip ≡ entry)
      × ((ret (call (pause c))).rip ≡ address)
      × (trap_ret (ret (call (pause c))) ≡ restore first_registers (call (pause c)))
      × (first_registers.rip ≡ entrypoint)
      × (first_registers.cs ≡ bit_or (offset_of TableField.user_code64) ring3)
pause-enters_process address entry p stack base m m₁ m₂ c call made filled_in high at small dest
      same away out level kept =
    let s = stack_mem-filled address entry p stack m m₁ m₂ made filled_in in
    let e = pause-switches base (stack + 3856) c at small (dest ∙ s.1) (omega arith) in
    let words = λ (x : ℕ) (lo : stack + 3856 ≤ x) (hi : x < stack + page_size).
      paused-apart base x c (elim away [ inl q ↦ inr (omega arith) | inr q ↦ inl (omega arith) ])
        (λ z. elim out [ inl q ↦ omega arith | inr q ↦ omega arith ])
      ∙ same x (omega arith) hi
      ∙ ap (λ f. f x) s.0 in
    let rsp : (pause c).rsp ≡ stack + 3912 = ap (λ k. k.rsp) e ∙ omega arith in
    let later = λ (x : ℕ) (lo : stack + 3912 ≤ x) (hi : x < stack + page_size).
      kept x (omega (arith, rsp)) hi ∙ ap (λ k. k.mem x) e ∙ words x (omega arith) hi in
    let top : (call (pause c)).rsp ≡ stack + 3912 = level ∙ rsp in
    (
      ap (λ k. k.rip) e
          ∙ ap (paused base c) (let a : stack + 3856 + 8 * 6 ≡ stack + 3904 = omega arith in a)
          ∙ words (stack + 3904) (omega arith) (omega arith)
          ∙ entry_word address entry p stack m,
      ap (call (pause c)).mem top
          ∙ later (stack + 3912) (omega arith) (omega arith)
          ∙ return_word address entry p stack m,
      trap_ret-restore (stack + 3920) (ret (call (pause c))) (omega arith) (omega (arith, top))
          ∙ ap (λ r. restore r (call (pause c)))
              (read_frame-same (call (pause c)).mem (stack_mem address entry p stack m)
                  (stack + 3920) (λ x lo hi. later x (omega arith) (omega arith))
                ∙ read_frame-filled (prepared address entry p stack m).mem (stack + 3920)),
      refl,
      refl,
    )
