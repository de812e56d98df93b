-- ===== src/Assembly/Stack.antt =====
-- Words pushed, and popped again.
use xesual.Base.{
  ℕ, ◌+◌, ◌*◌, ◌^◌, ◌<◌, ◌≤◌, ◌≡◌, refl, ap, ◌∙◌, arith, List, [], ◌∷◌, length, map, ◌==◌, ==_ne,
  ==_refl, if◌then◌else◌, u64, sub64, update, ◌⊎◌, inl, inr, ℕ_discrete,
}
use xesual.Traps.Registers.{SyscallRegisters}
use xesual.Assembly.{
  Register, Core, read_register, write_register, push, push_words, push_registers, pop,
  pop_registers,
}

-- The memory with words pushed down to `base`.
abbrev pub pushed : List ℕ → (base : ℕ) → (ℕ → ℕ) → ℕ → ℕ
pushed [] base f = f
pushed (v ∷ vs) base f = pushed vs base (update f (base + 8 * length vs) v)

-- The word with a number, counted from the last one pushed.
abbrev pub word_of : List ℕ → ℕ → ℕ
word_of [] i = 0
word_of (v ∷ vs) i = if i == length vs then v else word_of vs i

pub pushed-outside :
    (vs : List ℕ) (base a : ℕ) (f : ℕ → ℕ)
    → (a < base) ⊎ (base + 8 * length vs ≤ a)
    → pushed vs base f a ≡ f a
pushed-outside [] base a f out = refl
pushed-outside (v ∷ vs) base a f out =
    pushed-outside vs base a (update f (base + 8 * length vs) v)
      (elim out [ inl below ↦ inl below | inr above ↦ inr (omega arith) ])
    ∙ ground arith

pub pushed-word :
    (vs : List ℕ) (base i : ℕ) (f : ℕ → ℕ)
    → i < length vs
    → pushed vs base f (base + 8 * i) ≡ word_of vs i
pushed-word [] base i f h = absurd (omega arith)
pushed-word (v ∷ vs) base i f h = elim (ℕ_discrete i (length vs)) [
  | yes e ↦ rw e (
      rw (==_refl (length vs)) (
        pushed-outside vs base (base + 8 * length vs) (update f (base + 8 * length vs) v)
          (inr (omega arith))
        ∙ rw (==_refl (base + 8 * length vs)) refl))
  | no ne ↦
      rw (==_ne i (length vs) ne)
        (pushed-word vs base i (update f (base + 8 * length vs) v) (omega arith))
]

pub push_words-at :
    (vs : List ℕ) (base : ℕ) (c : Core)
    → base + 8 * length vs < 2 ^ 64
    → c.rsp ≡ base + 8 * length vs
    → push_words vs c ≡ record c { rsp = base; mem = pushed vs base c.mem }
push_words-at [] base c h e = ap (λ (s : ℕ). record c { rsp = s }) (e ∙ omega arith)
push_words-at (v ∷ vs) base c h e =
    let d : sub64 c.rsp 8 ≡ base + 8 * length vs = omega (arith, e) in
    push_words-at vs base (push v c) (omega arith) d
    ∙ ap (λ s. record c { rsp = base; mem = pushed vs base (update c.mem s v) }) d

pub push_registers-words :
    (rs : List Register) (c : Core)
    → push_registers rs c ≡ push_words (map (λ r. read_register r c.general) rs) c
push_registers-words [] c = refl
push_registers-words (r ∷ rs) c = push_registers-words rs (push (read_register r c.general) c)

-- The registers popped from `a` on.
abbrev pub loaded : List Register → (a : ℕ) → (ℕ → ℕ) → SyscallRegisters → SyscallRegisters
loaded [] a f g = g
loaded (r ∷ rs) a f g = loaded rs (a + 8) f (write_register r (f a) g)

pub pop_registers-at :
    (rs : List Register) (a : ℕ) (c : Core)
    → a + 8 * length rs < 2 ^ 64
    → c.rsp ≡ a
    → pop_registers rs c
      ≡ record c { general = loaded rs a c.mem c.general; rsp = a + 8 * length rs }
pop_registers-at [] a c h e = ap (λ (s : ℕ). record c { rsp = s }) (e ∙ omega arith)
pop_registers-at (r ∷ rs) a c h e =
    let d : u64 (c.rsp + 8) ≡ a + 8 = omega (arith, e) in
    pop_registers-at rs (a + 8) (pop r c) (omega arith) d
    ∙ ap
        (λ s. record c {
          general = loaded rs (a + 8) c.mem (write_register r (c.mem s) c.general);
          rsp = a + 8 + 8 * length rs;
        })
        e
    ∙ ap
        (λ (t : ℕ). record c {
          general = loaded rs (a + 8) c.mem (write_register r (c.mem a) c.general);
          rsp = t;
        })
        (omega arith)
