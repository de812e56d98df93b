-- ===== src/Graphics/Registers.antt =====
-- The registers of the display hold what is written, each its own, and the framebuffer's address.
use xesual.Base.{ℕ, ◌+◌, ◌*◌, ◌%◌, ◌^◌, ◌<◌, ◌≡◌, ◌≢◌, ◌↔◌, refl, ap, arith, ==_ne, ==_refl, update}
use xesual.Machine.{Machine, ok}
use xesual.Address.{to_virtual}
use xesual.Pci.{bar0, bar2, offset, address_of, read_field}
use xesual.Graphics.{
  DispiIndex, id, x_res, y_res, bpp, enable, bank, virt_width, virt_height, x_offset, y_offset,
  video_memory64k, index, bochs_addr, addr_of, framebuffer_address, read, write,
}

-- The base address registers of a device.
abbrev pub bar2_of : Machine → (dev : ℕ) → ℕ
bar2_of m dev = m.config_space (address_of dev (offset bar2)) % 2 ^ 32

abbrev pub bar0_of : Machine → (dev : ℕ) → ℕ
bar0_of m dev = m.config_space (address_of dev (offset bar0)) % 2 ^ 32

abbrev pub selected : Machine → (dev : ℕ) → Machine
selected m dev = record m { config_address = address_of dev (offset bar2) }

abbrev pub register_at : Machine → (dev : ℕ) → DispiIndex → ℕ
register_at m dev idx = bochs_addr m.hhdm_offset (bar2_of m dev) idx

read_word :
    (m : Machine) (dev field : ℕ)
    → read_field 4 dev field m
      ≡ ok
          (m.config_space (address_of dev field) % 2 ^ 32)
          (record m { config_address = address_of dev field })
unfolding read_field
read_word m dev field =
    ap (λ v. ok v (record m { config_address = address_of dev field })) (omega arith)

addr_of-ok :
    (m : Machine) (dev : ℕ) (idx : DispiIndex)
    → addr_of dev idx m ≡ ok (register_at m dev idx) (selected m dev)
unfolding addr_of
addr_of-ok m dev idx = rw (read_word m dev (offset bar2)) refl

-- Registers with different indices lie at different addresses, whatever the base is.
addr-apart :
    (off bar : ℕ) (idx idx' : DispiIndex)
    → index idx ≢ index idx'
    → index idx < 11
    → index idx' < 11
    → bochs_addr off bar idx ≢ bochs_addr off bar idx'
unfolding bochs_addr
addr-apart off bar idx idx' ne h h' e = ne (omega arith)

index-bound : (idx : DispiIndex) → index idx < 11
index-bound id = omega arith
index-bound x_res = omega arith
index-bound y_res = omega arith
index-bound bpp = omega arith
index-bound enable = omega arith
index-bound bank = omega arith
index-bound virt_width = omega arith
index-bound virt_height = omega arith
index-bound x_offset = omega arith
index-bound y_offset = omega arith
index-bound video_memory64k = omega arith

-- The state after a write.
abbrev pub written : Machine → (dev : ℕ) → DispiIndex → (val : ℕ) → Machine
written m dev idx val = record (selected m dev) {
  display = update m.display (register_at m dev idx) val;
}

-- A register reads what was written to it last, and a write leaves the registers with other indices
-- as they were, whatever the device's base address is.
read-write :
    (m : Machine) (dev val : ℕ) (idx idx' : DispiIndex)
    → index idx ≢ index idx'
    → (write dev idx val m ≡ ok tt (written m dev idx val))
      × (read dev idx (written m dev idx val) ≡ ok val (written m dev idx val))
      × (read dev idx' (written m dev idx val)
          ≡ ok (m.display (register_at m dev idx')) (written m dev idx val))
unfolding read write
read-write m dev val idx idx' ne = (
  rw (addr_of-ok m dev idx) refl,
  rw (addr_of-ok (written m dev idx val) dev idx, ==_refl (register_at m dev idx)) refl,
  rw
      (
        addr_of-ok (written m dev idx val) dev idx',
        ==_ne (register_at m dev idx) (register_at m dev idx') (
            addr-apart m.hhdm_offset (bar2_of m dev) idx idx' ne (index-bound idx)
              (index-bound idx')),
      )
      refl,
)

-- A base address register has flags in its lowest four bits, which `framebufferAddress` leaves in
-- the address: it is that of the framebuffer exactly if the flags are 0.
pub framebuffer_address-flags :
    (m : Machine) (dev base flags : ℕ)
    → bar0_of m dev ≡ base * 16 + flags
    → flags < 16
    → let m' = record m { config_address = address_of dev (offset bar0) } in
      (framebuffer_address dev m ≡ ok (to_virtual m.hhdm_offset (base * 16 + flags)) m')
      × ((to_virtual m.hhdm_offset (base * 16 + flags) ≡ to_virtual m.hhdm_offset (base * 16))
          ↔ (flags ≡ 0))
unfolding framebuffer_address to_virtual
framebuffer_address-flags m dev base flags e h =
    (rw (read_word m dev (offset bar0), e) refl, ((λ p. omega arith), λ p. omega arith))
