-- ===== src/Pci/Devices.antt =====
-- The devices of a configuration space in the order in which the scan finds them, as a list.
pub mod Calls
pub mod Found
pub mod Order
use xesual.Base.{
  ℕ, zero, suc, ◌+◌, Bool, true, false, not, bit_and, ◌==◌, if◌then◌else◌, Option, none, some, List,
  [], ◌∷◌, ◌++◌,
}
use xesual.Pci.{vendor_id, header_type, secondary_bus, offset, bridge, pci_null, box}
use xesual.Pci.Scan.{byte_at, word_at, type_at}

-- The lists for the numbers from `i` on, `count` of them, one behind the other.
abbrev pub gather : (count i : ℕ) → (ℕ → List ℕ) → List ℕ
gather zero i body = []
gather (suc count) i body = body i ++ gather count (suc i) body

abbrev pub is_there : (ℕ → ℕ) → ℕ → Bool
is_there c device = not (word_at c device (offset vendor_id) == pci_null)

abbrev pub has_type : (ℕ → ℕ) → Option ℕ → ℕ → Bool
has_type c none device = true
has_type c (some t) device = t == type_at c device

abbrev pub only_if : Bool → List ℕ → List ℕ
only_if b devices = if b then devices else []

-- The buses of the host bridge's functions, up to the first that is missing.
abbrev pub hosts : (ℕ → ℕ) → (count func : ℕ) → List ℕ
hosts c zero func = []
hosts c (suc count) func = only_if (is_there c (box 0 0 func)) (func ∷ hosts c count (suc func))

module _ (c : ℕ → ℕ) (type : Option ℕ) where
  -- A device, and what is behind it if it is a bridge; `behind` are the devices of a bus.
  abbrev pub function_devices : (behind : ℕ → List ℕ) → ℕ → List ℕ
  function_devices behind device =
      only_if (has_type c type device) (device ∷ [])
      ++ only_if (type_at c device == bridge) (behind (byte_at c device (offset secondary_bus)))

  abbrev pub slot_devices : (behind : ℕ → List ℕ) → (bus slot : ℕ) → List ℕ
  slot_devices behind bus slot = only_if (is_there c (box bus slot 0)) (
      function_devices behind (box bus slot 0)
      ++ only_if (not (byte_at c (box bus slot 0) (offset header_type) == 0)) (
          gather 7 1 λ func.
            only_if (is_there c (box bus slot func)) (function_devices behind (box bus slot func))))

  -- The devices of a bus, with bridges followed to a depth.
  abbrev pub bus_devices : (depth bus : ℕ) → List ℕ
  bus_devices zero bus = []
  bus_devices (suc depth) bus = gather 32 0 (slot_devices (bus_devices depth) bus)

  abbrev pub each_bus : (depth : ℕ) → List ℕ → List ℕ
  each_bus depth [] = []
  each_bus depth (bus ∷ buses) = bus_devices depth bus ++ each_bus depth buses

  -- Without a host bridge of several functions the devices of bus 0, with one those of its buses,
  -- or those of every bus if it has none.
  unfoldable pub all_devices : (depth : ℕ) → List ℕ
  all_devices depth =
      if bit_and (byte_at c 0 (offset header_type)) 0x80 == 0
      then bus_devices depth 0
      else if is_there c (box 0 0 0)
      then each_bus depth (hosts c 8 0)
      else gather 256 0 λ bus. gather 32 0 (slot_devices (bus_devices depth) bus)
