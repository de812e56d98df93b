-- ===== src/Traps/Gates.antt =====
-- The gates that `setGate` writes, and which vectors `setupIDTTable` gives one.
use xesual.Base.{
  ℕ, ◌+◌, ◌*◌, ◌%◌, ◌^◌, ◌<◌, ◌≡◌, refl, sym, ◌/◌, ap, ◌∙◌, arith, Bool, true, false, bit_or, u64,
  ◌<<<◌, List, [], ◌∷◌, if◌then◌else◌, ◌==◌, Option, none, some,
}
use mathlib.Core.Path.{subst}
use xesual.Base.Bits.{and_mask, fields_or}
use xesual.Traps.Vectors.{stub_of, last_gate, gates-gate_of}
use xesual.Traps.{
  IdtEntry, set_gate, get_gate, interrupt_gate, gate_type, storage_segment, privilege_level,
  is_present, Stub, Gate, gates, set_gates, setup_idt_table, code_selector,
}

join :
    (lo mid hi : ℕ)
    → lo < 2 ^ 16
    → mid < 2 ^ 16
    → hi < 2 ^ 32
    → bit_or (bit_or lo (u64 (mid <<< 16))) (u64 (hi <<< 32)) ≡ hi * 2 ^ 32 + (mid * 2 ^ 16 + lo)
join lo mid hi p q r =
    ap (λ t. bit_or (bit_or lo t) (u64 (hi <<< 32)))
      (let e : u64 (mid <<< 16) ≡ mid * 2 ^ 16 = omega arith in e)
    ∙ ap (λ t. bit_or t (u64 (hi <<< 32))) (fields_or 16 mid lo p)
    ∙ ap (bit_or (mid * 2 ^ 16 + lo)) (let e : u64 (hi <<< 32) ≡ hi * 2 ^ 32 = omega arith in e)
    ∙ fields_or 32 hi (mid * 2 ^ 16 + lo) (omega arith)

-- `getGate` of what `setGate` has written is the handler, whatever its 64-bit address; and the gate
-- is a present interrupt gate, which the processor lets code of ring 3 call only if it was asked to.
pub get_gate-set_gate :
    (handler selector : ℕ) (userspace : Bool)
    → handler < 2 ^ 64
    → let e = set_gate handler selector interrupt_gate userspace in
      (get_gate e ≡ handler)
      × (e.selector ≡ selector % 2 ^ 16)
      × (gate_type e.flags ≡ 0xe)
      × (storage_segment e.flags ≡ 0)
      × (is_present e.flags ≡ 1)
      × (privilege_level e.flags ≡ (if userspace then 3 else 0))
unfolding get_gate set_gate
get_gate-set_gate handler selector true h = (
  simp (and_mask 16, and_mask 32)
      (join _ _ _ (omega arith) (omega arith) (omega arith) ∙ omega arith),
  refl,
  refl,
  refl,
  refl,
  refl,
)
get_gate-set_gate handler selector false h = (
  simp (and_mask 16, and_mask 32)
      (join _ _ _ (omega arith) (omega arith) (omega arith) ∙ omega arith),
  refl,
  refl,
  refl,
  refl,
  refl,
)

-- What a gate, or none, leaves in the array where `old` stood.
abbrev pub entry_after : (Stub → ℕ) → IdtEntry → Option Gate → IdtEntry
entry_after address old none = old
entry_after address old (some g) =
    set_gate (address g.stub) code_selector interrupt_gate g.userspace

earlier :
    (address : Stub → ℕ) (g : Gate) (old : IdtEntry) (v : ℕ) (later : Option Gate)
    → entry_after address
        (if g.vector == v
          then set_gate (address g.stub) code_selector interrupt_gate g.userspace
          else old)
        later
      ≡ entry_after address old
          (elim later [ some g' ↦ some g' | none ↦ if g.vector == v then some g else none ])
earlier address g old v (some g') = refl
earlier address g old v none = go (g.vector == v)
  where
    go :
        (b : Bool)
        → (if b then set_gate (address g.stub) code_selector interrupt_gate g.userspace else old)
          ≡ entry_after address old (if b then some g else none)
    go true = refl
    go false = refl

set_gates-last_gate :
    (address : Stub → ℕ) (gs : List Gate) (entries : ℕ → IdtEntry) (v : ℕ)
    → set_gates address gs entries v ≡ entry_after address (entries v) (last_gate gs v)
unfolding set_gates
set_gates-last_gate address [] entries v = refl
set_gates-last_gate address (g ∷ gs) entries v =
    set_gates-last_gate address gs _ v ∙ earlier address g (entries v) v (last_gate gs v)

written :
    (address : Stub → ℕ) (entries : ℕ → IdtEntry) (v : ℕ)
    → setup_idt_table address entries v ≡ elim (stub_of v) [
      | some s ↦ set_gate (address s) code_selector interrupt_gate (v == 128)
      | none ↦ entries v
    ]
unfolding setup_idt_table
written address entries v =
    set_gates-last_gate address gates entries v
    ∙ ap (entry_after address (entries v)) (gates-gate_of v)
    ∙ described (stub_of v)
  where
    described :
        (o : Option Stub)
        → entry_after address (entries v) (elim o [
          | some s ↦ some (record { vector = v; stub = s; userspace = v == 128 })
          | none ↦ none
        ])
          ≡ elim o [
            | some s ↦ set_gate (address s) code_selector interrupt_gate (v == 128)
            | none ↦ entries v
          ]
    described (some s) = refl
    described none = refl

-- What the processor reads in an entry: where it goes, in which segment, and how.
pub record Reads (e : IdtEntry) (target selector privilege : ℕ) : Type 0 where
  pub target_of : e.base_high * 2 ^ 32 + (e.base_mid * 2 ^ 16 + e.base_low) ≡ target
  pub selector_of : e.selector ≡ selector
  pub interrupt : e.flags % 2 ^ 4 ≡ 0xe
  pub no_segment : e.flags / 2 ^ 4 % 2 ≡ 0
  pub privilege_of : e.flags / 2 ^ 5 % 2 ^ 2 ≡ privilege
  pub present : e.flags / 2 ^ 7 % 2 ≡ 1
  pub reserved : (e.zero_byte ≡ 0) × (e.padding ≡ 0)

set_gate-Reads :
    (handler : ℕ) (userspace : Bool)
    → handler < 2 ^ 64
    → Reads
        (set_gate handler code_selector interrupt_gate userspace)
        handler
        8
        (if userspace then 3 else 0)
unfolding set_gate
set_gate-Reads handler true h = record {
  target_of = simp (and_mask 16, and_mask 32) (omega arith);
  selector_of = refl;
  interrupt = refl;
  no_segment = refl;
  privilege_of = refl;
  present = refl;
  reserved = (refl, refl);
}
set_gate-Reads handler false h = record {
  target_of = simp (and_mask 16, and_mask 32) (omega arith);
  selector_of = refl;
  interrupt = refl;
  no_segment = refl;
  privilege_of = refl;
  present = refl;
  reserved = (refl, refl);
}

-- What is to be read at a vector: with an entry point, a gate to it, and without one what was there.
abbrev pub Expected : (Stub → ℕ) → (ℕ → IdtEntry) → ℕ → Option Stub → IdtEntry → Type 0
Expected address entries v (some s) e = Reads e (address s) 8 (if v == 128 then 3 else 0)
Expected address entries v none e = e ≡ entries v

-- An entry point, if there is one, stands at a 64-bit address.
abbrev pub Addressed : (Stub → ℕ) → Option Stub → Type 0
Addressed address (some s) = address s < 2 ^ 64
Addressed address none = Unit {0}

-- After `setupIDTTable`, whatever the array held, the processor reads at every vector that `stub_of`
-- names a present interrupt gate to that entry point, which stands at a 64-bit address, in the segment 8, which
-- only for the system call may be used from ring 3; the other vectors are as they were.
pub setup_idt_table-stub_of :
    (address : Stub → ℕ) (entries : ℕ → IdtEntry) (v : ℕ)
    → Addressed address (stub_of v)
    → Expected address entries v (stub_of v) (setup_idt_table address entries v)
setup_idt_table-stub_of address entries v small =
    subst (Expected address entries v (stub_of v)) (sym (written address entries v))
      (expected (stub_of v) small)
  where
    expected :
        (o : Option Stub)
        → Addressed address o
        → Expected address entries v o (elim o [
          | some s ↦ set_gate (address s) code_selector interrupt_gate (v == 128)
          | none ↦ entries v
        ])
    expected (some s) h = set_gate-Reads (address s) (v == 128) h
    expected none h = refl
