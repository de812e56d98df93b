-- ===== src/Graphics.antt =====
-- Kernel/Graphics.h and Kernel/Graphics.cpp: the registers of the Bochs display device, which lie
-- at the address in its base address register 2, and the address of its framebuffer.
pub mod Registers
use xesual.Base.{ℕ, ◌+◌, ◌*◌, ◌%◌, ◌^◌, u64, ◌<<<◌, update}
use xesual.Machine.{Machine, ok, Cmd, ◌>>=◌, ◌>>◌, pure, get}
use xesual.Address.{to_virtual}
use xesual.Pci.{bar0, bar2, offset, read_field}

-- `DispiIndex`
pub data DispiIndex : Type 0 where
  id x_res y_res bpp enable bank virt_width virt_height x_offset y_offset : DispiIndex
  video_memory64k : DispiIndex

abbrev pub index : DispiIndex → ℕ
index id = 0x0
index x_res = 0x1
index y_res = 0x2
index bpp = 0x3
index enable = 0x4
index bank = 0x5
index virt_width = 0x6
index virt_height = 0x7
index x_offset = 0x8
index y_offset = 0x9
index video_memory64k = 0xa

-- The address of a register, where the device's memory begins at the physical address `bar`.
unfoldable pub bochs_addr : (hhdm_offset bar : ℕ) → DispiIndex → ℕ
bochs_addr hhdm_offset bar idx = u64 (u64 (to_virtual hhdm_offset bar + 0x500) + (index idx <<< 1))

-- A `BochsDisplayDevice` is its `m_pciID`, the first argument of what follows.
unfoldable pub addr_of : (dev : ℕ) → DispiIndex → Cmd ℕ
unfolding bochs_addr
addr_of dev idx = do
  mmio_field ← read_field 4 dev (offset bar2)
  m ← get
  pure (bochs_addr m.hhdm_offset mmio_field idx)

unfoldable pub framebuffer_address : (dev : ℕ) → Cmd ℕ
framebuffer_address dev = do
  bar ← read_field 4 dev (offset bar0)
  m ← get
  pure (to_virtual m.hhdm_offset bar)

abbrev load_display : ℕ → Cmd ℕ
load_display a m = ok (m.display a) m

abbrev store_display : (a val : ℕ) → Cmd (Unit {0})
store_display a val m = ok tt (record m { display = update m.display a val })

unfoldable pub read : (dev : ℕ) → DispiIndex → Cmd ℕ
unfolding addr_of
read dev idx = addr_of dev idx >>= load_display

unfoldable pub write : (dev : ℕ) → DispiIndex → (val : ℕ) → Cmd (Unit {0})
unfolding addr_of
write dev idx val = addr_of dev idx >>= λ a. store_display a val
