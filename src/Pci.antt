-- ===== src/Pci.antt =====
-- Kernel/PCI.h and Kernel/PCI.cpp: the addresses of fields, the accesses through the two ports, and
-- the scan over buses, slots and functions. The callback of the scan is a parameter.
pub mod Address
pub mod Fields
pub mod Scan
pub mod Devices
use xesual.Base.{
  ℕ, zero, suc, ◌+◌, ◌-◌, ◌*◌, ◌/◌, ◌%◌, ◌^◌, Bool, true, false, not, bit_and, bit_or, u8, u16, u32,
  ◌>>>◌, ◌<<<◌, ◌==◌, if◌then◌else◌, Option, none, some,
}
use xesual.Machine.{Machine, ok, out_of_fuel, Cmd, ◌>>=◌, ◌>>◌, pure, when, skip, update, for_loop}

-- `Field`, as far as the scan and the display read them.
pub data Field : Type 0 where
  vendor_id device_id command subclass class header_type bar0 bar2 secondary_bus : Field

abbrev pub offset : Field → ℕ
offset vendor_id = 0x00
offset device_id = 0x02
offset command = 0x04
offset subclass = 0x0a
offset class = 0x0b
offset header_type = 0x0e
offset bar0 = 0x10
offset bar2 = 0x18
offset secondary_bus = 0x19

-- `Type::Bridge`
abbrev pub bridge : ℕ
bridge = 0x604

abbrev pub address_port : ℕ
address_port = 0xcf8

abbrev pub value_port : ℕ
value_port = 0xcfc

abbrev pub pci_null : ℕ
pci_null = 0xffff

unfoldable pub bus_of : ℕ → ℕ
bus_of device = u8 (device >>> 16)

unfoldable pub slot_of : ℕ → ℕ
slot_of device = u8 (device >>> 8)

unfoldable pub func_of : ℕ → ℕ
func_of device = u8 device

unfoldable pub address_of : (device field : ℕ) → ℕ
unfolding bus_of slot_of func_of
address_of device field =
    bit_or
      (bit_or
        (bit_or (bit_or 0x80000000 (u32 (bus_of device <<< 16))) (u32 (slot_of device <<< 11)))
        (u32 (func_of device <<< 8)))
      (bit_and field 0xfc)

unfoldable pub box : (bus slot func : ℕ) → ℕ
box bus slot func = u32 (bit_or (bit_or (bus <<< 16) (slot <<< 8)) func)

-- The instructions `out` and `in` at the two ports: a write to the first sets the address, and the
-- bytes from the second on are those of the word that it selects.
unfoldable pub outl : (port word : ℕ) → Cmd (Unit {0})
outl port word m =
    if port == address_port
    then ok tt (record m { config_address = word })
    else if port == value_port
    then ok tt (record m { config_space = update m.config_space m.config_address word })
    else ok tt m

abbrev port_bits : (bits port : ℕ) → Cmd ℕ
port_bits bits port m =
    ok (m.config_space m.config_address / 2 ^ (8 * (port - value_port)) % 2 ^ bits) m

unfoldable pub inl : ℕ → Cmd ℕ
inl = port_bits 32

unfoldable pub ins : ℕ → Cmd ℕ
ins = port_bits 16

unfoldable pub inb : ℕ → Cmd ℕ
inb = port_bits 8

unfoldable pub write_field : (device field size value : ℕ) → Cmd (Unit {0})
unfolding address_of outl
write_field device field size value = do
  outl address_port (address_of device field)
  outl value_port value

unfoldable pub read_field : (size device field : ℕ) → Cmd ℕ
unfolding address_of outl inl ins inb
read_field size device field = do
  outl address_port (address_of device field)
  (if size == 1
      then inb (value_port + bit_and field 0b11)
      else if size == 2
      then ins (value_port + bit_and field 0b10)
      else if size == 4
      then inl value_port
      else pure 0xffff)

unfoldable pub find_type : ℕ → Cmd ℕ
find_type dev = do
  hi ← read_field 1 dev (offset class)
  lo ← read_field 1 dev (offset subclass)
  pure (u16 (bit_or (hi <<< 8) lo))

-- The scan, with the callback `f` and the type that it looks for; `none` is the type -1.
module _ (f : (device vendor_id device_id : ℕ) → Cmd (Unit {0})) (type : Option ℕ) where
  unfoldable pub scan_hit : ℕ → Cmd (Unit {0})
  scan_hit dev = do
    vid ← read_field 2 dev (offset vendor_id)
    did ← read_field 2 dev (offset device_id)
    f dev vid did

  -- `type == -1 || type == findType(dev)`
  unfoldable pub is_wanted : ℕ → Cmd Bool
  is_wanted dev = elim type [
    | none ↦ pure true
    | some t ↦ do found ← find_type dev; pure (t == found)
  ]

  -- `scan_bus` is the recursive call.
  unfoldable pub scan_func : (ℕ → Cmd (Unit {0})) → (bus slot func : ℕ) → Cmd (Unit {0})
  scan_func scan_bus bus slot func = do
    wanted ← is_wanted (box bus slot func)
    when wanted (scan_hit (box bus slot func))
    found ← find_type (box bus slot func)
    when (found == bridge)
        (do secondary ← read_field 1 (box bus slot func) (offset secondary_bus); scan_bus secondary)

  -- The body of the loop over the functions of a slot.
  unfoldable pub scan_other : (ℕ → Cmd (Unit {0})) → (bus slot func : ℕ) → Cmd (Unit {0})
  scan_other scan_bus bus slot func = do
    vid ← read_field 2 (box bus slot func) (offset vendor_id)
    when (not (vid == pci_null)) (scan_func scan_bus bus slot func)

  unfoldable pub scan_slot : (ℕ → Cmd (Unit {0})) → (bus slot : ℕ) → Cmd (Unit {0})
  scan_slot scan_bus bus slot = do
    vid ← read_field 2 (box bus slot 0) (offset vendor_id)
    when (not (vid == pci_null)) (do
      scan_func scan_bus bus slot 0
      header ← read_field 1 (box bus slot 0) (offset header_type)
      when (not (header == 0)) (for_loop 7 1 (scan_other scan_bus bus slot)))

  -- On fuel for the depth of the bridges.
  unfoldable pub scan_bus : (fuel bus : ℕ) → Cmd (Unit {0})
  scan_bus zero bus = λ _. out_of_fuel
  scan_bus (suc fuel) bus = for_loop 32 0 (scan_slot (scan_bus fuel) bus)

  -- The loop over the functions of the host bridge, which ends at the first that is missing; it
  -- returns `hit`.
  unfoldable pub scan_hosts : (fuel count func : ℕ) → Bool → Cmd Bool
  scan_hosts fuel zero func hit = pure hit
  scan_hosts fuel (suc count) func hit = do
    vid ← read_field 2 (box 0 0 func) (offset vendor_id)
    if vid == pci_null
        then pure hit
        else do scan_bus fuel func; scan_hosts fuel count (suc func) true

  unfoldable pub scan : (fuel : ℕ) → Cmd (Unit {0})
  scan fuel = do
    header ← read_field 1 0 (offset header_type)
    if bit_and header 0x80 == 0 then scan_bus fuel 0 else do
      hit ← scan_hosts fuel 8 0 false
      when (not hit) (for_loop 256 0 (λ bus. for_loop 32 0 (scan_slot (scan_bus fuel) bus)))
