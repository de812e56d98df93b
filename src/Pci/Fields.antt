-- ===== src/Pci/Fields.antt =====
-- Accesses to fields through the two ports.
use xesual.Base.{
  ℕ, ◌+◌, ◌-◌, ◌*◌, ◌/◌, ◌%◌, ◌^◌, ◌≡◌, refl, ap, arith, bit_and, ◌==◌, if◌then◌else◌,
}
use xesual.Machine.{Machine, ok, ◌>>◌, update}
use xesual.Pci.{value_port, address_of, write_field, read_field}

-- What the fields of a device read as when its words do not change.
abbrev pub value_of : (size device field : ℕ) → Machine → ℕ
value_of size device field m =
    m.config_space (address_of device field)
    / 2
      ^ (8
          * (if size == 1 then bit_and field 0b11 else if size == 2 then bit_and field 0b10 else 0))
    % 2 ^ (8 * size)

-- The state after `writeField`, and after `readField`.
abbrev pub written : (device field value : ℕ) → Machine → Machine
written device field value m = record m {
  config_address = address_of device field;
  config_space = update m.config_space (address_of device field) value;
}

abbrev pub selected : (device field : ℕ) → Machine → Machine
selected device field m = record m { config_address = address_of device field }

port_offset : (k : ℕ) → value_port + k - value_port ≡ k
port_offset k = omega arith

-- `readField` of one byte, of two and of four reads that part of the word that the address selects,
-- and changes nothing but the address port.
pub read_field-value_of :
    (device field : ℕ) (m : Machine)
    → (read_field 1 device field m ≡ ok (value_of 1 device field m) (selected device field m))
      × (read_field 2 device field m ≡ ok (value_of 2 device field m) (selected device field m))
      × (read_field 4 device field m ≡ ok (value_of 4 device field m) (selected device field m))
unfolding read_field
read_field-value_of device field m = (
  ap
      (λ k.
        ok (m.config_space (address_of device field) / 2 ^ (8 * k) % 2 ^ 8)
          (selected device field m))
      (port_offset (bit_and field 3)),
  ap
      (λ k.
        ok (m.config_space (address_of device field) / 2 ^ (8 * k) % 2 ^ 16)
          (selected device field m))
      (port_offset (bit_and field 2)),
  refl,
)

-- `writeField` writes the whole word of 32 bits, whatever the size that it is given: then the fields
-- in that word read from the value written, and all others as before.
pub read_field-write_field :
    (size device field value device' field' : ℕ) (m : Machine)
    → (write_field device field size value >> read_field 1 device' field') m
      ≡ ok
          ((if address_of device field == address_of device' field'
              then value
              else m.config_space (address_of device' field'))
            / 2 ^ (8 * bit_and field' 0b11)
            % 2 ^ 8)
          (selected device' field' (written device field value m))
unfolding write_field
read_field-write_field size device field value device' field' m =
    (read_field-value_of device' field' (written device field value m)).0
