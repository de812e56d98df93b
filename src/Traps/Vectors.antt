-- ===== src/Traps/Vectors.antt =====
-- Which vectors have a gate: a description, and the calls of `setupIDTTable` compared with it.
use xesual.Base.{
  ℕ, zero, suc, ◌-◌, ◌≤◌, ◌<◌, ◌≡◌, refl, ap, sym, ◌∙◌, arith, Bool, true, false, List, [], ◌∷◌,
  if◌then◌else◌, leb, ltb, ◌==◌, ◌&&◌, not, ==_ne, ltb→lt, dec_lt, ℕ_discrete, Option, none, some,
}
use xesual.Traps.{Stub, isr, irq, Gate, gates}

-- Which entry point a vector has: the exceptions, the sixteen legacy interrupts, the four
-- interrupts of the kernel, and the system call.
abbrev pub stub_of : ℕ → Option Stub
stub_of v =
    if ltb v 32
    then some (isr v)
    else if ltb v 48
    then some (irq (v - 32))
    else if leb 123 v && leb v 126
    then some (isr v)
    else if v == 128
    then some (isr 128)
    else none

-- The gate that the calls in a list leave at a vector: that of the last call for it.
abbrev pub last_gate : List Gate → ℕ → Option Gate
last_gate [] v = none
last_gate (g ∷ gs) v = elim (last_gate gs v) [
  | some g' ↦ some g'
  | none ↦ if g.vector == v then some g else none
]

-- The gate that `stub_of` describes.
abbrev pub gate_of : ℕ → Option Gate
gate_of v = elim (stub_of v) [
  | some s ↦ some (record { vector = v; stub = s; userspace = v == 128 })
  | none ↦ none
]

abbrev vectors_below : ℕ → List Gate → Bool
vectors_below n [] = true
vectors_below n (g ∷ gs) = ltb g.vector n && vectors_below n gs

and→× : (a b : Bool) → (a && b) ≡ true → (a ≡ true) × (b ≡ true)
and→× a b h = ground arith

last_gate-above :
    (n : ℕ) (gs : List Gate) (v : ℕ) → vectors_below n gs ≡ true → n ≤ v → last_gate gs v ≡ none
last_gate-above n [] v a h = refl
last_gate-above n (g ∷ gs) v a h =
    rw
      (
        last_gate-above n gs v (and→× (ltb g.vector n) (vectors_below n gs) a).1 h,
        ==_ne g.vector v (λ e.
            let p = ltb→lt g.vector n (and→× (ltb g.vector n) (vectors_below n gs) a).0 in
            omega arith),
      )
      refl

-- Gates compared by a test, and all vectors up to a bound.
abbrev same_stub : Stub → Stub → Bool
same_stub (isr n) (isr k) = n == k
same_stub (irq n) (irq k) = n == k
same_stub _ _ = false

abbrev same_bool : Bool → Bool → Bool
same_bool true b = b
same_bool false b = not b

abbrev same : Option Gate → Option Gate → Bool
same none none = true
same (some g) (some g') =
    g.vector == g'.vector && same_stub g.stub g'.stub && same_bool g.userspace g'.userspace
same _ _ = false

same_stub→≡ : (s s' : Stub) → same_stub s s' ≡ true → s ≡ s'
same_stub→≡ (isr n) (isr k) h = ap isr (ground arith)
same_stub→≡ (irq n) (irq k) h = ap irq (ground arith)
same_stub→≡ (isr n) (irq k) h = ground arith
same_stub→≡ (irq n) (isr k) h = ground arith

same_bool→≡ : (b b' : Bool) → same_bool b b' ≡ true → b ≡ b'
same_bool→≡ true b' h = sym h
same_bool→≡ false true h = h
same_bool→≡ false false h = refl

same→≡ : (o o' : Option Gate) → same o o' ≡ true → o ≡ o'
same→≡ none none h = refl
same→≡ none (some g) h = ground arith
same→≡ (some g) none h = ground arith
same→≡ (some g) (some g') h =
    let a = g.vector == g'.vector in
    let b = same_stub g.stub g'.stub in
    let c = same_bool g.userspace g'.userspace in
    let p = and→× (a && b) c h in
    let q = and→× a b p.0 in
    let v : g.vector ≡ g'.vector = ground (arith, q.0) in
    let s = same_stub→≡ g.stub g'.stub q.1 in
    let u = same_bool→≡ g.userspace g'.userspace p.1 in
    λ i. some (record { vector = v i; stub = s i; userspace = u i })

abbrev all_below : ℕ → (ℕ → Bool) → Bool
all_below zero f = true
all_below (suc n) f = f n && all_below n f

all_below→ : (n : ℕ) (f : ℕ → Bool) → all_below n f ≡ true → (v : ℕ) → v < n → f v ≡ true
all_below→ zero f h v p = absurd (omega arith)
all_below→ (suc n) f h v p = elim (ℕ_discrete v n) as (λ _. f v ≡ true) [
  | yes e ↦ ap f e ∙ (and→× (f n) (all_below n f) h).0
  | no ne ↦ all_below→ n f (and→× (f n) (all_below n f) h).1 v (omega arith)
]

gates-below : (v : ℕ) → v < 129 → last_gate gates v ≡ gate_of v
unfolding gates
gates-below v h = same→≡ _ _ (all_below→ 129 (λ v. same (last_gate gates v) (gate_of v)) refl v h)

gates-above : (v : ℕ) → 129 ≤ v → last_gate gates v ≡ none
unfolding gates
gates-above v h = last_gate-above 129 gates v refl h

gate_of-above : (v : ℕ) → 129 ≤ v → gate_of v ≡ none
gate_of-above v h = ground arith

pub gates-gate_of : (v : ℕ) → last_gate gates v ≡ gate_of v
gates-gate_of v = elim (dec_lt v 129) as (λ _. last_gate gates v ≡ gate_of v) [
  | yes h ↦ gates-below v h
  | no h ↦ gates-above v (omega arith) ∙ sym (gate_of-above v (omega arith))
]
