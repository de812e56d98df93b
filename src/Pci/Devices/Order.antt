-- ===== src/Pci/Devices/Order.antt =====
-- The scan calls back for the devices of the list, in its order, and for no others.
use xesual.Base.{
  ℕ, zero, suc, ◌+◌, ◌≤◌, ◌<◌, ◌≡◌, refl, ap, ◌∙◌, arith, Bool, true, false, not, bit_and, ◌==◌,
  ==_iff, if◌then◌else◌, Option, none, some, List, [], ◌∷◌, ◌++◌,
}
use mathlib.Core.Path.{subst}
use xesual.Machine.{Machine, ok, Cmd, and_then, ◌>>=◌, ◌>>◌, pure, when, for_loop}
use xesual.Machine.Total.{Total}
use xesual.Pci.{
  vendor_id, device_id, header_type, secondary_bus, offset, bridge, pci_null, box, read_field,
  find_type, scan_hit, is_wanted, scan_func, scan_other, scan_slot, scan_bus, scan_hosts, scan,
}
use xesual.Pci.Scan.{
  byte_at, word_at, type_at, Shown, Rising, Stable, read_byte, read_word, Total-find_type,
}
use xesual.Pci.Devices.{
  gather, is_there, has_type, only_if, function_devices, slot_devices, bus_devices, hosts, each_bus,
  all_devices,
}
use xesual.Pci.Devices.Calls.{
  Goes, Reads, Goes-read, Goes-bind, Goes-pure, Goes-when, Goes-if, Goes-for_loop,
}
use xesual.Pci.Devices.Found.{shown, found, found-true, settle}

-- A relation between what has been called back for and the state.
abbrev pub Records {κ} : (List ℕ → Machine → Type κ) → Type κ
Records I = (ds : List ℕ) → Stable (I ds)

abbrev pub With {κ} : (List ℕ → Machine → Type κ) → (ℕ → ℕ) → List ℕ → Machine → Type κ
With I c ds m = I ds m × (m.config_space ≡ c)

module _ {κ} (I : List ℕ → Machine → Type κ) (stable : Records I) (c : ℕ → ℕ) where
  reads {ℓ} :
      {A : Type ℓ} (r : Cmd A) (v : A)
      → ((ds : List ℕ) → Total (λ m. I ds m × (m.config_space ≡ c)) r (λ a. a ≡ v))
      → Reads (With I c) r v
  reads r v t = record {
    runs = λ ds m i. let (a, m', e, i', q) = t ds m i in (m', subst (λ w. r m ≡ ok w m') q e, i');
  }

  byte : (device field : ℕ) → Reads (With I c) (read_field 1 device field) (byte_at c device field)
  byte device field = reads _ _ (λ ds. read_byte (I ds) (stable ds) c device field)

  word : (device field : ℕ) → Reads (With I c) (read_field 2 device field) (word_at c device field)
  word device field = reads _ _ (λ ds. read_word (I ds) (stable ds) c device field)

  type_of : (device : ℕ) → Reads (With I c) (find_type device) (type_at c device)
  type_of device = reads _ _ (λ ds. Total-find_type (I ds) (stable ds) c device)

  -- The test of the type, with any callback.
  wanted_by :
      (f : (device vendor device_id : ℕ) → Cmd (Unit {0})) (type : Option ℕ) (device : ℕ)
      → Reads (With I c) (is_wanted f type device) (has_type c type device)
  unfolding is_wanted
  wanted_by f none device = record { runs = λ ds m i. (m, refl, i) }
  wanted_by f (some t) device = record {
    runs = λ ds m i.
        let (m', e, i') = (type_of device).runs ds m i in
        (m', ap (λ r. and_then r (λ found. pure (t == found))) e, i');
  }

  module _ (f : (device vendor device_id : ℕ) → Cmd (Unit {0})) (type : Option ℕ) where
    -- The callback ends for every device that is shown to it, and notes it.
    abbrev pub Notes : Type κ
    Notes =
        (device : ℕ)
        → Shown c type device
        → Goes (With I c)
            (f device (word_at c device (offset vendor_id)) (word_at c device (offset device_id)))
            tt (device ∷ [])

    wanted : (device : ℕ) → Reads (With I c) (is_wanted f type device) (has_type c type device)
    wanted device = wanted_by f type device

    hit :
        (notes : Notes) (device : ℕ)
        → Shown c type device
        → Goes (With I c) (scan_hit f type device) tt (device ∷ [])
    unfolding scan_hit
    hit notes device shown =
        Goes-read _ (word device (offset vendor_id))
          (Goes-read _ (word device (offset device_id)) (notes device shown))

    module _ (notes : Notes) (scan_bus : ℕ → Cmd (Unit {0})) (behind : ℕ → List ℕ) (bus : ℕ)
        (on_bus : bus < 256) (rising : Rising c)
        (above : (next : ℕ)
          → bus < next
          → next < 256
          → Goes (With I c) (scan_bus next) tt (behind next)) where
      func_devices :
          (slot func : ℕ)
          → slot < 32
          → func < 8
          → is_there c (box bus slot func) ≡ true
          → Goes
              (With I c)
              (scan_func f type scan_bus bus slot func)
              tt
              (function_devices c type behind (box bus slot func))
      unfolding scan_func
      func_devices slot func on_slot on_func there =
          let device = box bus slot func in
          Goes-read _ (wanted device) (
            Goes-bind _
              (Goes-when (has_type c type device)
                λ e. hit notes device (shown c type device there e))
              (Goes-read _ (type_of device) (
                Goes-when (type_at c device == bridge) λ e.
                  Goes-read _ (byte device (offset secondary_bus)) (
                    above _
                      (rising bus slot func on_bus on_slot on_func
                        ((==_iff (type_at c device) bridge).0 e))
                      (omega arith)))))

      other_devices :
          (slot func : ℕ)
          → slot < 32
          → func < 8
          → Goes (With I c) (scan_other f type scan_bus bus slot func) tt (
              only_if
                (is_there c (box bus slot func))
                (function_devices c type behind (box bus slot func)))
      unfolding scan_other
      other_devices slot func on_slot on_func =
          Goes-read _ (word (box bus slot func) (offset vendor_id)) (
            Goes-when (is_there c (box bus slot func))
              λ t. func_devices slot func on_slot on_func t)

      scan_slot-devices :
          (slot : ℕ)
          → slot < 32
          → Goes
              (With I c)
              (scan_slot f type scan_bus bus slot)
              tt
              (slot_devices c type behind bus slot)
      unfolding scan_slot
      scan_slot-devices slot on_slot = Goes-read _ (word (box bus slot 0) (offset vendor_id)) (
          Goes-when (is_there c (box bus slot 0)) λ t.
            Goes-bind _ (func_devices slot 0 on_slot (omega arith) t) (
              Goes-read _ (byte (box bus slot 0) (offset header_type)) (
                Goes-when (not (byte_at c (box bus slot 0) (offset header_type) == 0)) λ _.
                  Goes-for_loop 7 1 _ _ λ func h. other_devices slot func on_slot (omega arith))))

    module _ (notes : Notes) (rising : Rising c) where
      scan_bus-devices :
          (fuel bus : ℕ)
          → 256 ≤ fuel + bus
          → bus < 256
          → Goes (With I c) (scan_bus f type fuel bus) tt (bus_devices c type fuel bus)
      unfolding scan_bus
      scan_bus-devices zero bus h k = absurd (omega arith)
      scan_bus-devices (suc fuel) bus h k = Goes-for_loop 32 0 _ _ λ slot on_slot.
          scan_slot-devices notes (scan_bus f type fuel) (bus_devices c type fuel) bus k rising
            (λ next p q. scan_bus-devices fuel next (omega arith) q) slot on_slot

      host_or_end :
          (b : Bool) (r : Cmd Bool) (hit v : Bool) (fuel func : ℕ) (rest : List ℕ)
          → Goes (With I c) r v (each_bus c type fuel (func ∷ rest))
          → Goes
              (With I c)
              (if b then pure hit else r)
              (if not b then v else hit)
              (each_bus c type fuel (only_if (not b) (func ∷ rest)))
      host_or_end true r hit v fuel func rest g = Goes-pure hit
      host_or_end false r hit v fuel func rest g = g

      scan_hosts-devices :
          (fuel count func : ℕ) (hit : Bool)
          → 256 ≤ fuel
          → func + count ≤ 256
          → Goes
              (With I c)
              (scan_hosts f type fuel count func hit)
              (found c count func hit)
              (each_bus c type fuel (hosts c count func))
      unfolding scan_hosts
      scan_hosts-devices fuel zero func hit h k = Goes-pure hit
      scan_hosts-devices fuel (suc count) func hit h k =
          Goes-read _ (word (box 0 0 func) (offset vendor_id)) (
            host_or_end (word_at c (box 0 0 func) (offset vendor_id) == pci_null)
              (scan_bus f type fuel func >> scan_hosts f type fuel count (suc func) true) hit
              (found c count (suc func) true) fuel func (hosts c count (suc func))
              (Goes-bind _ (scan_bus-devices fuel func (omega arith) (omega arith))
                (scan_hosts-devices fuel count (suc func) true h (omega arith))))

      -- The scan of a host bridge that has several functions.
      several :
          (fuel : ℕ)
          → 256 ≤ fuel
          → Goes
              (With I c)
              (scan_hosts f type fuel 8 0 false >>= λ hit.
                when (not hit) (
                  for_loop 256 0
                    λ bus. for_loop 32 0 (scan_slot f type (scan_bus f type fuel) bus)))
              tt
              (each_bus c type fuel (hosts c 8 0)
                ++ only_if (not (found c 8 0 false)) (
                    gather 256 0
                      λ bus. gather 32 0 (slot_devices c type (bus_devices c type fuel) bus)))
      several fuel h = Goes-bind _ (scan_hosts-devices fuel 8 0 false h (omega arith)) (
          Goes-when (not (found c 8 0 false)) λ _. Goes-for_loop 256 0 _ _ λ bus p.
            Goes-for_loop 32 0 _ _ λ slot on_slot.
              scan_slot-devices notes (scan_bus f type fuel) (bus_devices c type fuel) bus p rising
                (λ next _ q. scan_bus-devices fuel next (omega arith) q) slot on_slot)

      scan-devices :
          (fuel : ℕ) → 256 ≤ fuel → Goes (With I c) (scan f type fuel) tt (all_devices c type fuel)
      unfolding scan all_devices
      scan-devices fuel h =
          let every =
            gather 256 0 λ bus. gather 32 0 (slot_devices c type (bus_devices c type fuel) bus) in
          Goes-read _ (byte 0 (offset header_type)) (
            Goes-if (bit_and (byte_at c 0 (offset header_type)) 0x80 == 0)
              (scan_bus-devices fuel 0 (omega arith) (omega arith))
              (subst
                (λ xs.
                  Goes (With I c)
                    (scan_hosts f type fuel 8 0 false >>= λ hit. when (not hit) (
                      for_loop 256 0
                        λ bus. for_loop 32 0 (scan_slot f type (scan_bus f type fuel) bus)))
                    tt xs)
                (ap
                    (λ b.
                      each_bus c type fuel (hosts c 8 0)
                      ++ only_if (not (if is_there c (box 0 0 0) then b else false)) every)
                    (found-true c 7 1)
                  ∙ settle c type fuel (is_there c (box 0 0 0)) (0 ∷ hosts c 7 1) every)
                (several fuel h)))

-- If every bridge on one of the 256 buses leads to a bus with a higher number, and the callback
-- ends for each device that is there and has the type looked for, with `I` taken from the devices so far to those with it
-- added, then the scan, with 256 rounds of fuel, ends and has called back for the devices of the
-- list, in its order, each as often as it stands there.
pub scan-all_devices {κ} :
    (I : List ℕ → Machine → Type κ) (stable : Records I)
    (f : (device vendor device_id : ℕ) → Cmd (Unit {0})) (type : Option ℕ) (fuel : ℕ) (m : Machine)
    → Rising m.config_space
    → Notes I stable m.config_space f type
    → 256 ≤ fuel
    → I [] m
    → (m' : Machine) × (scan f type fuel m ≡ ok tt m')
      × I (all_devices m.config_space type fuel) m'
      × (m'.config_space ≡ m.config_space)
scan-all_devices I stable f type fuel m rising notes h i =
    let (m', e, (i', c')) =
      (scan-devices I stable m.config_space f type notes rising fuel h).runs [] m (i, refl) in
    (m', e, i', c')
