-- ===== src/Pci/Address.antt =====
-- `box` and `addressOf`: the parts of a device number, and of the address of a field.
use xesual.Base.{ℕ, ◌+◌, ◌*◌, ◌/◌, ◌%◌, ◌^◌, ◌<◌, ◌≡◌, ap, ◌∙◌, arith, bit_and, bit_or, u32, ◌<<<◌}
use xesual.Base.Bits.{and_mask, and_high_mask, or_fields, or_split}
use xesual.Pci.{bus_of, slot_of, func_of, address_of, box}

-- For a slot and a function of a byte each, `box` puts the three numbers side by side.
box_sum :
    (bus slot func : ℕ)
    → bus < 2 ^ 8
    → slot < 2 ^ 8
    → func < 2 ^ 8
    → box bus slot func ≡ bus * 2 ^ 16 + slot * 2 ^ 8 + func
unfolding box
box_sum bus slot func p q r =
    ap u32 (
      ap (λ t. bit_or t func) (or_fields 16 bus (slot <<< 8) (omega arith))
      ∙ ap (λ t. bit_or t func)
          (let e : bus * 2 ^ 16 + slot * 2 ^ 8 ≡ (bus * 2 ^ 8 + slot) * 2 ^ 8 = omega arith in e)
      ∙ or_fields 8 (bus * 2 ^ 8 + slot) func r)
    ∙ omega arith

-- `busOf`, `slotOf` and `funcOf` take apart what `box` has put together from bytes.
pub parts-box :
    (bus slot func : ℕ)
    → bus < 2 ^ 8
    → slot < 2 ^ 8
    → func < 2 ^ 8
    → (bus_of (box bus slot func) ≡ bus)
      × (slot_of (box bus slot func) ≡ slot)
      × (func_of (box bus slot func) ≡ func)
unfolding bus_of slot_of func_of
parts-box bus slot func p q r =
    rw (box_sum bus slot func p q r) (omega arith, omega arith, omega arith)

mask_word : (a : ℕ) → bit_and a 0xfc ≡ a / 2 ^ 2 % 2 ^ 6 * 2 ^ 2
mask_word a = and_high_mask 2 a 0x3f ∙ ap (λ t. t * 2 ^ 2) (and_mask 6 (a / 2 ^ 2))

-- The address of a field is the enable bit and the four numbers side by side.
pub address_of_sum :
    (bus slot func field : ℕ)
    → bus < 2 ^ 8
    → slot < 2 ^ 5
    → func < 2 ^ 3
    → address_of (box bus slot func) field
      ≡ 2 ^ 31 + bus * 2 ^ 16 + slot * 2 ^ 11 + func * 2 ^ 8 + field / 4 % 2 ^ 6 * 4
unfolding address_of
address_of_sum bus slot func field p q r =
    let (b, s, f) = parts-box bus slot func p (omega arith) (omega arith) in
    rw (b, s, f, mask_word field) (joined ∙ omega arith)
  where
    x : u32 (bus <<< 16) ≡ bus * 2 ^ 16
    x = omega arith

    y : u32 (slot <<< 11) ≡ slot * 2 ^ 11
    y = omega arith

    z : u32 (func <<< 8) ≡ func * 2 ^ 8
    z = omega arith

    w : ℕ
    w = field / 2 ^ 2 % 2 ^ 6 * 2 ^ 2

    high : bit_or 0x80000000 (bus * 2 ^ 16) ≡ (2 ^ 15 + bus) * 2 ^ 16
    high = ground (
      arith,
      or_split 16 (2 ^ 15) bus 0 0 (omega arith) (omega arith),
      or_fields 15 1 bus (omega arith),
    )

    shift : (2 ^ 15 + bus) * 2 ^ 16 + slot * 2 ^ 11 ≡ ((2 ^ 15 + bus) * 2 ^ 5 + slot) * 2 ^ 11
    shift = omega arith

    shift' :
        ((2 ^ 15 + bus) * 2 ^ 5 + slot) * 2 ^ 11 + func * 2 ^ 8
        ≡ (((2 ^ 15 + bus) * 2 ^ 5 + slot) * 2 ^ 3 + func) * 2 ^ 8
    shift' = omega arith

    joined :
        bit_or
          (bit_or
            (bit_or (bit_or 0x80000000 (u32 (bus <<< 16))) (u32 (slot <<< 11)))
            (u32 (func <<< 8)))
          w
        ≡ ((2 ^ 15 + bus) * 2 ^ 5 + slot) * 2 ^ 11 + func * 2 ^ 8 + w
    joined =
        rw (x, y, z, high)
          (ap (λ t. bit_or (bit_or t (func * 2 ^ 8)) w)
              (or_fields 16 (2 ^ 15 + bus) (slot * 2 ^ 11) (omega arith) ∙ shift)
            ∙ ap (λ t. bit_or t w)
                (or_fields 11 ((2 ^ 15 + bus) * 2 ^ 5 + slot) (func * 2 ^ 8) (omega arith) ∙ shift')
            ∙ or_fields 8 (((2 ^ 15 + bus) * 2 ^ 5 + slot) * 2 ^ 3 + func) w (omega arith)
            ∙ omega arith)

-- Two fields of devices with slots below 32 and functions below 8 have the same address only if
-- they are fields of one device that stand in one word of 32 bits.
pub address_of-injective :
    (bus slot func field bus' slot' func' field' : ℕ)
    → bus < 2 ^ 8
    → slot < 2 ^ 5
    → func < 2 ^ 3
    → field < 2 ^ 8
    → bus' < 2 ^ 8
    → slot' < 2 ^ 5
    → func' < 2 ^ 3
    → field' < 2 ^ 8
    → address_of (box bus slot func) field ≡ address_of (box bus' slot' func') field'
    → (bus ≡ bus') × (slot ≡ slot') × (func ≡ func') × (field / 4 ≡ field' / 4)
address_of-injective bus slot func field bus' slot' func' field' p q r s p' q' r' s' e =
    let a = address_of_sum bus slot func field p q r in
    let a' = address_of_sum bus' slot' func' field' p' q' r' in
    (omega arith, omega arith, omega arith, omega arith)
