-- ===== src/Pci/Scan.antt =====
-- The scan ends, if every bridge leads to a bus with a higher number, and calls back for devices
-- that are there and have the type looked for, and for these alone.
use xesual.Base.{
  ℕ, zero, suc, ◌+◌, ◌-◌, ◌*◌, ◌/◌, ◌%◌, ◌^◌, ◌≤◌, ◌<◌, ◌≡◌, ◌≢◌, refl, sym, ap, ◌∙◌, arith, Bool,
  true, false, not, bit_and, bit_or, u16, ◌<<<◌, ◌==◌, Option, none, some, ==_iff,
}
use mathlib.Core.Path.{subst}
use xesual.Machine.{Machine, ok, Cmd, for_loop}
use xesual.Machine.Total.{
  Total, Ends, Total-bind, Ends-bind, Ends-then, Ends-skip, Ends-when, Ends-if, Total-pure,
  Total-if, Total-then,
}
use xesual.Pci.{
  vendor_id, device_id, subclass, class, header_type, secondary_bus, offset, bridge, value_port,
  pci_null, address_of, box, read_field, find_type, scan_hit, is_wanted, scan_func, scan_other,
  scan_slot, scan_bus, scan_hosts, scan,
}

-- The fields in the configuration space `c`.
abbrev pub byte_at : (ℕ → ℕ) → (device field : ℕ) → ℕ
byte_at c device field = c (address_of device field) / 2 ^ (8 * bit_and field 0b11) % 2 ^ 8

abbrev pub word_at : (ℕ → ℕ) → (device field : ℕ) → ℕ
word_at c device field = c (address_of device field) / 2 ^ (8 * bit_and field 0b10) % 2 ^ 16

abbrev pub type_at : (ℕ → ℕ) → ℕ → ℕ
type_at c device =
    u16 (bit_or (byte_at c device (offset class) <<< 8) (byte_at c device (offset subclass)))

-- What the scan looks for: a device that is there, whose type is the one given, if one is.
abbrev pub Wanted : (ℕ → ℕ) → Option ℕ → ℕ → Type 0
Wanted c none device = Unit
Wanted c (some t) device = t ≡ type_at c device

abbrev pub Shown : (ℕ → ℕ) → Option ℕ → ℕ → Type 0
Shown c type device = (word_at c device (offset vendor_id) ≢ pci_null) × Wanted c type device

-- A bridge on one of the 256 buses leads to a bus with a higher number.
abbrev pub Rising : (ℕ → ℕ) → Type 0
Rising c =
    (bus slot func : ℕ)
    → bus < 256
    → slot < 32
    → func < 8
    → type_at c (box bus slot func) ≡ bridge
    → bus < byte_at c (box bus slot func) (offset secondary_bus)

-- A test of the vendor that was read.
there : (vid v : ℕ) → vid ≡ v → not (vid == pci_null) ≡ true → v ≢ pci_null
there vid v p e n = ground arith

-- An invariant that does not depend on the address that was written last.
abbrev pub Stable {κ} : (Machine → Type κ) → Type κ
Stable I = (m : Machine) (a : ℕ) → I m → I (record m { config_address = a })

module _ {κ} (I : Machine → Type κ) (stable : Stable I) (c : ℕ → ℕ) where
  abbrev pub With : Machine → Type κ
  With m = I m × (m.config_space ≡ c)

  pub read_byte :
      (device field : ℕ) → Total With (read_field 1 device field) (λ v. v ≡ byte_at c device field)
  unfolding read_field
  read_byte device field m (i, e) = (
    _,
    record m { config_address = address_of device field },
    refl,
    (stable m _ i, e),
    ap
          (λ g.
            g (address_of device field)
            / 2 ^ (8 * (value_port + bit_and field 0b11 - value_port))
            % 2 ^ 8)
          e
        ∙ ap (λ k. c (address_of device field) / 2 ^ (8 * k) % 2 ^ 8) (omega arith),
  )

  pub read_word :
      (device field : ℕ) → Total With (read_field 2 device field) (λ v. v ≡ word_at c device field)
  unfolding read_field
  read_word device field m (i, e) = (
    _,
    record m { config_address = address_of device field },
    refl,
    (stable m _ i, e),
    ap
          (λ g.
            g (address_of device field)
            / 2 ^ (8 * (value_port + bit_and field 0b10 - value_port))
            % 2 ^ 16)
          e
        ∙ ap (λ k. c (address_of device field) / 2 ^ (8 * k) % 2 ^ 16) (omega arith),
  )

  pub Total-find_type : (device : ℕ) → Total With (find_type device) (λ t. t ≡ type_at c device)
  unfolding find_type
  Total-find_type device =
      Total-bind (read_byte device (offset class)) λ hi p.
        Total-bind (read_byte device (offset subclass)) λ lo q. Total-pure _ (rw (p, q) refl)

  Ends-for_loop :
      (count start : ℕ) (body : ℕ → Cmd (Unit {0}))
      → ((i : ℕ) → start ≤ i → i < start + count → Ends With (body i))
      → Ends With (for_loop count start body)
  unfolding for_loop
  Ends-for_loop zero start body t = Ends-skip
  Ends-for_loop (suc count) start body t =
      Ends-then (t start (omega arith) (omega arith))
        (Ends-for_loop count (suc start) body λ i p q. t i (omega arith) (omega arith))

  -- The callback ends at every device that it may be called for.
  abbrev pub Answers : ((device vendor device_id : ℕ) → Cmd (Unit {0})) → Option ℕ → Type κ
  Answers f type =
      (device : ℕ)
      → Shown c type device
      → Ends With
          (f device (word_at c device (offset vendor_id)) (word_at c device (offset device_id)))

  Total-is_wanted :
      (f : (device vendor device_id : ℕ) → Cmd (Unit {0})) (type : Option ℕ) (device : ℕ)
      → Total With (is_wanted f type device) (λ b. b ≡ true → Wanted c type device)
  unfolding is_wanted
  Total-is_wanted f none device = Total-pure true λ _. tt
  Total-is_wanted f (some t) device =
      Total-bind (Total-find_type device)
        λ found p. Total-pure (t == found) λ e. (==_iff t found).0 e ∙ p

  module _ (rising : Rising c) (f : (device vendor device_id : ℕ) → Cmd (Unit {0}))
      (type : Option ℕ) (answers : Answers f type) where
    Ends-scan_hit : (device : ℕ) → Shown c type device → Ends With (scan_hit f type device)
    unfolding scan_hit
    Ends-scan_hit device shown = Ends-bind (read_word device (offset vendor_id)) λ vid p.
        Ends-bind (read_word device (offset device_id)) λ did q.
          subst (λ v. Ends With (f device v did)) (sym p)
            (subst (λ v. Ends With (f device (word_at c device (offset vendor_id)) v)) (sym q)
              (answers device shown))

    -- The recursive call ends at every bus above the one at hand.
    module _ (scan_bus : ℕ → Cmd (Unit {0})) (bus : ℕ) (on_bus : bus < 256)
        (above : (next : ℕ) → bus < next → next < 256 → Ends With (scan_bus next)) where
      Ends-scan_func :
          (slot func : ℕ)
          → slot < 32
          → func < 8
          → word_at c (box bus slot func) (offset vendor_id) ≢ pci_null
          → Ends With (scan_func f type scan_bus bus slot func)
      unfolding scan_func
      Ends-scan_func slot func on_slot on_func shown =
          Ends-bind (Total-is_wanted f type (box bus slot func)) λ w p.
            Ends-then (Ends-when w λ e. Ends-scan_hit (box bus slot func) (shown, p e)) (
              Ends-bind (Total-find_type (box bus slot func)) λ t q. Ends-when (t == bridge) λ e.
                Ends-bind (read_byte (box bus slot func) (offset secondary_bus)) λ next r.
                  above next
                    (subst (λ s. bus < s) (sym r)
                      (rising bus slot func on_bus on_slot on_func (sym q ∙ (==_iff t bridge).0 e)))
                    (omega (arith, r)))

      Ends-scan_other :
          (slot func : ℕ)
          → slot < 32
          → func < 8
          → Ends With (scan_other f type scan_bus bus slot func)
      unfolding scan_other
      Ends-scan_other slot func on_slot on_func =
          Ends-bind (read_word (box bus slot func) (offset vendor_id)) λ vid p.
            Ends-when (not (vid == pci_null))
              λ e. Ends-scan_func slot func on_slot on_func (there vid _ p e)

      Ends-scan_slot : (slot : ℕ) → slot < 32 → Ends With (scan_slot f type scan_bus bus slot)
      unfolding scan_slot
      Ends-scan_slot slot on_slot =
          Ends-bind (read_word (box bus slot 0) (offset vendor_id)) λ vid p.
            Ends-when (not (vid == pci_null)) λ e.
              Ends-then (Ends-scan_func slot 0 on_slot (omega arith) (there vid _ p e)) (
                Ends-bind (read_byte (box bus slot 0) (offset header_type)) λ header q.
                  Ends-when (not (header == 0)) λ _.
                    Ends-for_loop 7 1 _ λ func _ h. Ends-scan_other slot func on_slot (omega arith))

    Ends-scan_bus :
        (fuel bus : ℕ) → 256 ≤ fuel + bus → bus < 256 → Ends With (scan_bus f type fuel bus)
    unfolding scan_bus
    Ends-scan_bus zero bus h k = absurd (omega arith)
    Ends-scan_bus (suc fuel) bus h k = Ends-for_loop 32 0 _ λ slot _ on_slot.
        Ends-scan_slot (scan_bus f type fuel) bus k
          (λ next p q. Ends-scan_bus fuel next (omega arith) q) slot on_slot

    Total-scan_hosts :
        (fuel count func : ℕ) (hit : Bool)
        → 256 ≤ fuel
        → func + count ≤ 256
        → Total With (scan_hosts f type fuel count func hit) (λ _. Unit {0})
    unfolding scan_hosts
    Total-scan_hosts fuel zero func hit h k = Total-pure hit tt
    Total-scan_hosts fuel (suc count) func hit h k =
        Total-bind (read_word (box 0 0 func) (offset vendor_id)) λ vid p.
          Total-if (vid == pci_null) (Total-pure hit tt) (
            Total-then (Ends-scan_bus fuel func (omega arith) (omega arith))
              (Total-scan_hosts fuel count (suc func) true h (omega arith)))

    -- With 256 rounds of fuel for the depth of the bridges, the scan ends and keeps the invariant.
    pub Ends-scan : (fuel : ℕ) → 256 ≤ fuel → Ends With (scan f type fuel)
    unfolding scan
    Ends-scan fuel h = Ends-bind (read_byte 0 (offset header_type)) λ header p.
        Ends-if (bit_and header 0x80 == 0) (λ _. Ends-scan_bus fuel 0 (omega arith) (omega arith))
          λ _. Ends-bind (Total-scan_hosts fuel 8 0 false h (omega arith)) λ hit _.
            Ends-when (not hit) λ _. Ends-for_loop 256 0 _ λ bus _ p.
              Ends-for_loop 32 0 _ λ slot _ on_slot.
                Ends-scan_slot (scan_bus f type fuel) bus p
                  (λ next _ q. Ends-scan_bus fuel next (omega arith) q) slot on_slot

-- If every bridge on one of the 256 buses leads to a bus with a higher number, and the callback ends and keeps an invariant
-- wherever it is called for a device that is there and has the type looked for, then the scan, with
-- 256 rounds of fuel for the depth of the bridges, ends and keeps the invariant and the
-- configuration space: so it calls back for no other device.
pub scan-ends {κ} :
    (I : Machine → Type κ) (stable : Stable I) (f : (device vendor device_id : ℕ) → Cmd (Unit {0}))
    (type : Option ℕ) (fuel : ℕ) (m : Machine)
    → Rising m.config_space
    → Answers I stable m.config_space f type
    → 256 ≤ fuel
    → I m
    → (m' : Machine) × (scan f type fuel m ≡ ok tt m') × I m' × (m'.config_space ≡ m.config_space)
scan-ends I stable f type fuel m rising answers h i =
    let (m', e, (i', c')) =
      Ends-scan I stable m.config_space rising f type answers fuel h m (i, refl) in
    (m', e, i', c')
