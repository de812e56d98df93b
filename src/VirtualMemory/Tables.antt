-- ===== src/VirtualMemory/Tables.antt =====
-- From an entry to the table that it leads to: what the code computes, and what it should.
use xesual.Base.{
  ℕ, ◌+◌, ◌*◌, ◌/◌, ◌%◌, ◌^◌, ◌≤◌, ◌<◌, ◌≡◌, ◌≢◌, ◌↔◌, ◌⊎◌, inl, inr, refl, ap, ◌∙◌, arith, Bool,
  true, false, fun_ext, dec_lt, ◌==◌, ==_refl, if◌then◌else◌,
}
use xesual.Machine.{Machine, ok, update}
use xesual.Machine.Memory.{load-ok, store-ok}
use xesual.Address.{to_virtual}
use xesual.Paging.{BitField, get_field, set_field, physical_address, is_present}
use xesual.VirtualMemory.{assign, shifted_address, pe2v, descend}

-- The promotion of a 28-bit field at work, below 2 GiB and above.
shifted_low :
    (raw : ℕ)
    → get_field physical_address raw < 2 ^ 19
    → shifted_address raw ≡ get_field physical_address raw * 2 ^ 12
unfolding shifted_address
shifted_low raw h = ground arith

shifted_high :
    (raw : ℕ)
    → 2 ^ 19 ≤ get_field physical_address raw
    → (shifted_address raw < 2 ^ 31)
      ⊎ ((2 ^ 63 ≤ shifted_address raw) × (shifted_address raw < 2 ^ 64))
unfolding shifted_address
shifted_high raw h = ground arith

cancel : (a b offset : ℕ) → (a + offset) % 2 ^ 64 ≡ (b + offset) % 2 ^ 64 → a % 2 ^ 64 ≡ b % 2 ^ 64
cancel a b offset e = omega arith

-- The table that an entry leads to is found at its address in the higher half exactly if it lies
-- below 2 GiB.
pub pe2v-to_virtual :
    (offset raw : ℕ)
    → (pe2v offset raw ≡ to_virtual offset (get_field physical_address raw * 2 ^ 12))
      ↔ (get_field physical_address raw < 2 ^ 19)
unfolding pe2v to_virtual
pe2v-to_virtual offset raw = (λ e. below (cancel _ _ offset e), λ h. rw (shifted_low raw h) refl)
  where
    address : ℕ
    address = get_field physical_address raw * 2 ^ 12

    below :
        shifted_address raw % 2 ^ 64 ≡ address % 2 ^ 64 → get_field physical_address raw < 2 ^ 19
    below e = elim (dec_lt (get_field physical_address raw) (2 ^ 19)) [
      | yes h ↦ h
      | no h ↦ elim (shifted_high raw (omega arith)) [
        | inl low ↦ absurd (omega arith)
        | inr (high, fits) ↦ absurd (omega arith)
      ]
    ]

pub assign-ok :
    (entry : ℕ) (b : BitField) (v : ℕ) (m : Machine)
    → entry ≢ 0
    → assign entry b v m
      ≡ ok tt (record m { mem = update m.mem entry (set_field b v (m.mem entry)) })
assign-ok entry b v m ne =
    rw (load-ok entry m ne, store-ok entry (set_field b v (m.mem entry)) m ne) refl

-- A word of memory given anew, and an assignment to it.
abbrev pub holding : Machine → (entry raw : ℕ) → Machine
holding m entry raw = record m { mem = update m.mem entry raw }

pub assign-again :
    (entry raw : ℕ) (b : BitField) (v : ℕ) (m : Machine)
    → entry ≢ 0
    → assign entry b v (holding m entry raw) ≡ ok tt (holding m entry (set_field b v raw))
assign-again entry raw b v m ne =
    assign-ok entry b v (holding m entry raw) ne
    ∙ ap (λ g. ok tt (record m { mem = g })) (fun_ext λ a. overwritten (entry == a) a)
  where
    overwritten :
        (t : Bool) (a : ℕ)
        → (if t then set_field b v (update m.mem entry raw entry) else (if t then raw else m.mem a))
          ≡ (if t then set_field b v raw else m.mem a)
    overwritten true a = rw (==_refl entry) refl
    overwritten false a = refl

-- The table that the processor finds behind an entry: it reads 40 bits of the address.
abbrev pub table_of : Machine → ℕ → ℕ
table_of m entry = to_virtual m.hhdm_offset (m.mem entry / 2 ^ 12 % 2 ^ 40 * 2 ^ 12)

-- An entry that leads to a table below 2 GiB.
pub record Leads (m : Machine) (entry : ℕ) : Type 0 where
  pub ne : entry ≢ 0
  pub present : get_field is_present (m.mem entry) ≡ 1
  pub low : m.mem entry / 2 ^ 12 % 2 ^ 40 < 2 ^ 19

pub descend-ok :
    (fuel entry : ℕ) (m : Machine) → Leads m entry → descend fuel entry m ≡ ok (table_of m entry) m
unfolding descend
descend-ok fuel entry m l =
    rw (load-ok entry m l.ne, l.present, load-ok entry m l.ne)
      (ap (λ a. ok a m)
        ((pe2v-to_virtual m.hhdm_offset (m.mem entry)).1 (omega (arith, l.low))
          ∙ ap (λ k. to_virtual m.hhdm_offset (k * 2 ^ 12)) (omega (arith, l.low))))
