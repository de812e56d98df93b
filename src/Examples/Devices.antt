-- ===== src/Examples/Devices.antt =====
-- PCI: device numbers, and a bus behind a bridge.
use xesual.Base.{
  ℕ, zero, suc, ◌/◌, ◌%◌, ◌^◌, ◌≡◌, refl, arith, true, false, none, some, ◌==◌, ◌<◌, ◌≢◌, ==_ne,
  ℕ_discrete, if◌then◌else◌, bit_or, u16, ◌<<<◌, Bool, List, [], ◌∷◌, ◌++◌, ap, ◌∙◌,
}
use xesual.Machine.{Machine, ok, Cmd, update}
use xesual.Pci.{
  bus_of, slot_of, func_of, address_of, box, bridge, scan, offset, subclass, secondary_bus,
}
use xesual.Pci.Address.{parts-box, address_of_sum}
use xesual.Pci.Devices.{all_devices}
use xesual.Pci.Devices.Order.{Records, Notes, scan-all_devices}
use xesual.Pci.Scan.{Rising, Answers, Stable, byte_at, scan-ends}
use xesual.Examples.Machines.{booted}

parts-box_example :
    (bus_of (box 2 31 7) ≡ 2) × (slot_of (box 2 31 7) ≡ 31) × (func_of (box 2 31 7) ≡ 7)
parts-box_example = parts-box 2 31 7 (omega arith) (omega arith) (omega arith)

-- A bridge on bus 0, which leads to bus 1, and a display there.
abbrev bridged : ℕ → ℕ
bridged a =
    if a == 0x8000_0008
    then 0x0604_0000
    else if a == 0x8001_0008
    then 0x0300_0000
    else if a == 0x8000_0000
    then 0x2448_8086
    else if a == 0x8000_000c
    then 0x0001_0000
    else if a == 0x8000_0018
    then 0x0001_0100
    else if a == 0x8001_0000
    then 0x1111_1234
    else if a == 0x8001_000c
    then 0
    else 0xffff_ffff

abbrev with_bridge : Machine
with_bridge = record booted { config_space = bridged }

-- The callback notes the vendor in the memory; the display is looked for, and the number 0 is the
-- bridge's.
abbrev note : (device vendor device_id : ℕ) → Cmd (Unit {0})
note device vendor device_id m = ok tt (record m { mem = update m.mem device vendor })

abbrev Untouched : Machine → Type 0
Untouched m = m.mem 0 ≡ 0

Untouched-Stable : Stable Untouched
Untouched-Stable m a i = i

-- The type that stands in a word of the configuration space.
abbrev type_of : ℕ → ℕ
type_of w = u16 (bit_or (w / 2 ^ 24 % 2 ^ 8 <<< 8) (w / 2 ^ 16 % 2 ^ 8))

other_type : (b : Bool) → ¬ (type_of (if b then 0x0300_0000 else 0xffff_ffff) ≡ bridge)
other_type true e = absurd (omega arith)
other_type false e = absurd (omega arith)

-- Only the bridge has the type of one.
other_word : (a : ℕ) → a % 256 ≡ 8 → a ≢ 0x8000_0008 → ¬ (type_of (bridged a) ≡ bridge)
other_word a low ne =
    rw
      (
        ==_ne a 0x8000_0008 ne,
        ==_ne a 0x8000_0000 (λ e. omega arith),
        ==_ne a 0x8000_000c (λ e. omega arith),
        ==_ne a 0x8000_0018 (λ e. omega arith),
        ==_ne a 0x8001_0000 (λ e. omega arith),
        ==_ne a 0x8001_000c (λ e. omega arith),
      )
      (other_type (a == 0x8001_0008))

leads_on :
    (bus slot func : ℕ)
    → bus ≡ 0
    → slot ≡ 0
    → func ≡ 0
    → bus < byte_at bridged (box bus slot func) (offset secondary_bus)
unfolding address_of box bus_of slot_of func_of
leads_on bus slot func b s f = rw (b, s, f) (omega arith)

bridged-Rising : Rising bridged
unfolding address_of
bridged-Rising bus slot func on_bus on_slot on_func e =
    let a = address_of (box bus slot func) (offset subclass) in
    let sum = address_of_sum bus slot func (offset subclass) on_bus on_slot on_func in
    elim (ℕ_discrete a 0x8000_0008) [
      | yes same ↦ leads_on bus slot func (omega arith) (omega arith) (omega arith)
      | no other ↦ absurd (other_word a (omega arith) other e)
    ]

note-Answers : Answers Untouched Untouched-Stable bridged note (some 0x300)
unfolding address_of bus_of slot_of func_of
note-Answers zero shown m i = absurd (omega (arith, shown.1))
note-Answers (suc device) shown m (i, e) =
    (_, refl, (rw (==_ne (suc device) 0 (λ z. absurd (omega arith))) i, e))

scan-ends_example :
    (m' : Machine) × (scan note (some 0x300) 256 with_bridge ≡ ok tt m')
    × (m'.mem 0 ≡ 0)
    × (m'.config_space ≡ bridged)
scan-ends_example =
    scan-ends Untouched Untouched-Stable note (some 0x300) 256 with_bridge bridged-Rising
      note-Answers (omega arith) refl

-- A callback that notes the devices behind one another.
abbrev list_device : (device vendor device_id : ℕ) → Cmd (Unit {0})
list_device device vendor device_id m =
    ok tt (record m { out_bytes = m.out_bytes ++ (device, vendor) ∷ [] })

abbrev numbers : List (ℕ × ℕ) → List ℕ
numbers [] = []
numbers ((a, b) ∷ xs) = a ∷ numbers xs

abbrev Listed : List ℕ → Machine → Type 0
Listed ds m = numbers m.out_bytes ≡ ds

Listed-Records : Records Listed
Listed-Records ds m a i = i

numbers-append : (xs : List (ℕ × ℕ)) (a b : ℕ) → numbers (xs ++ (a, b) ∷ []) ≡ numbers xs ++ a ∷ []
numbers-append [] a b = refl
numbers-append ((x, y) ∷ xs) a b = ap (λ t. x ∷ t) (numbers-append xs a b)

list_device-Notes : Notes Listed Listed-Records bridged list_device none
unfolding address_of
list_device-Notes device shown = record {
  runs = λ ds m i.
      (_, refl, (numbers-append m.out_bytes device _ ∙ ap (λ t. t ++ device ∷ []) i.0, i.1));
}

scan-all_devices_example :
    (m' : Machine) × (scan list_device none 256 with_bridge ≡ ok tt m')
    × (numbers m'.out_bytes ≡ 0 ∷ 0x10000 ∷ [])
    × (m'.config_space ≡ bridged)
unfolding all_devices address_of box bus_of slot_of func_of
scan-all_devices_example =
    scan-all_devices Listed Listed-Records list_device none 256 with_bridge bridged-Rising
      list_device-Notes (omega arith) refl
