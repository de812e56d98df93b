-- ===== src/Assembly/Traps/Lapic.antt =====
-- The interrupts that only tell the local APIC that they have been seen.
use xesual.Base.{
  ℕ, ◌+◌, ◌*◌, ◌^◌, ◌<◌, ◌≤◌, ◌≡◌, ◌⊎◌, inl, inr, refl, sym, ap, ◌∙◌, arith, none, List, [], ◌∷◌,
  ==_ne, u64, sub64, update,
}
use xesual.Assembly.{Core}
use xesual.Assembly.Stack.{pushed, pushed-word, pushed-outside, push_words-at}
use xesual.Assembly.Traps.{no_op_stub}
use xesual.Assembly.Traps.Frame.{at_gate, deliver}

-- The interrupted code goes on with all its registers, and 0 has been written to the register at 0xb0
-- of the local APIC; of memory, the words outside the 48 bytes below the stack are as they were.
pub no_op_stub-resumes :
    (symbol selector base a : ℕ) (c : Core)
    → base + 48 < 2 ^ 64
    → (symbol < base) ⊎ (base + 48 ≤ symbol)
    → (a < base) ⊎ (base + 48 ≤ a)
    → let c' = (no_op_stub symbol (deliver selector (base + 48) none c)).0 in
      (c' ≡ record c { mem = c'.mem })
      × (c'.mem a ≡ c.mem a)
      × ((no_op_stub symbol (deliver selector (base + 48) none c)).1
          ≡ (u64 (c.mem symbol + 0xb0), 0))
unfolding no_op_stub
no_op_stub-resumes symbol selector base a c small out out' =
    let five : List ℕ = c.ss ∷ c.rsp ∷ c.rflags ∷ c.cs ∷ c.rip ∷ [] in
    let f = pushed five (base + 8) c.mem in
    let d : Core = record (at_gate selector (base + 48) c) { rsp = base + 8; mem = f } in
    let e : deliver selector (base + 48) none c ≡ d =
      push_words-at five (base + 8) (at_gate selector (base + 48) c) (omega arith) (omega arith) in
    let below : sub64 (base + 8) 8 ≡ base = omega arith in
    let outside = λ (x : ℕ) (o : (x < base) ⊎ (base + 48 ≤ x)).
      (let other : update f (sub64 (base + 8) 8) c.general.r12 x ≡ f x =
          rw below
            (rw (==_ne base x (λ z. elim o [ inl q ↦ omega arith | inr q ↦ omega arith ])) refl) in
        other)
      ∙ pushed-outside five (base + 8) x c.mem
          (elim o [ inl q ↦ inl (omega arith) | inr q ↦ inr (omega arith) ]) in
    let word = λ (x i : ℕ) (z : x ≡ base + 8 + 8 * i) (h : i < 5).
      ap (update f (sub64 (base + 8) 8) c.general.r12) z
      ∙ (let other : update f (sub64 (base + 8) 8) c.general.r12 (base + 8 + 8 * i)
              ≡ f (base + 8 + 8 * i) =
            rw below (rw (==_ne base (base + 8 + 8 * i) (λ q. omega arith)) refl) in
          other)
      ∙ pushed-word five (base + 8) i c.mem h in
    (
      ap (λ k. (no_op_stub symbol k).0) e
          ∙ (λ t. record c {
            rip = word (base + 8) 0 (omega arith) (omega arith) t;
            cs = word (u64 (base + 8 + 8)) 1 (omega arith) (omega arith) t;
            rflags = word (u64 (base + 8 + 16)) 2 (omega arith) (omega arith) t;
            rsp = word (u64 (base + 8 + 24)) 3 (omega arith) (omega arith) t;
            ss = word (u64 (base + 8 + 32)) 4 (omega arith) (omega arith) t;
            mem = update f (sub64 (base + 8) 8) c.general.r12;
          })
          ∙ ap (λ k. record c { mem = (no_op_stub symbol k).0.mem }) (sym e),
      ap (λ k. (no_op_stub symbol k).0.mem a) e ∙ outside a out',
      ap (λ k. (no_op_stub symbol k).1) e ∙ ap (λ x. (u64 (x + 0xb0), 0)) (outside symbol out),
    )
