-- ===== src/VirtualMemory.antt =====
-- Kernel/VirtualMemoryManagement.cpp: page tables of 512 words in memory.
pub mod Tables
pub mod Translation
pub mod Frame
pub mod Range
pub mod Missing
pub mod Roots
pub mod Kept
use xesual.Base.{
  ℕ, ◌+◌, ◌-◌, ◌*◌, ◌/◌, ◌%◌, ◌^◌, Bool, true, false, not, bit_and, ltb, ◌==◌, if◌then◌else◌, u32,
  u64, ◌>>>◌, ◌<<<◌,
}
use xesual.Machine.{Machine, ok, Cmd, ◌>>=◌, ◌>>◌, pure, when, skip, get}
use xesual.Machine.Memory.{load, store, memset, memcpy}
use xesual.Address.{page_shift, page_size, non_null, to_physical, to_virtual}
use xesual.Paging.{
  BitField, get_field, set_field, is_present, is_writable, is_user_accessible, write_through,
  cache_disabled, page_size_bit, physical_address, execution_disabled,
}
use xesual.PhysicalMemory.{allocate_page, free_page}

-- An assignment to a field of the entry at an address.
abbrev pub assign : (entry : ℕ) → BitField → ℕ → Cmd (Unit {0})
assign entry b v = do raw ← load entry; store entry (set_field b v raw)

-- `p.hl.physicalAddress << PageShift`: a bit field of 28 bits is promoted to `int`, so the product
-- is cut to 32 bits; converted to 64 bits it is extended by its sign.
unfoldable pub shifted_address : ℕ → ℕ
shifted_address raw =
    let shifted = u32 (get_field physical_address raw <<< page_shift) in
    if ltb shifted (2 ^ 31) then shifted else shifted + (2 ^ 64 - 2 ^ 32)

unfoldable pub pe2v : (offset raw : ℕ) → ℕ
pe2v offset raw = u64 (shifted_address raw + offset)

unfoldable pub allocate_page_for_table_entry : (fuel entry : ℕ) → Cmd Bool
allocate_page_for_table_entry fuel entry = do
  frame ← allocate_page fuel
  (if not (non_null frame) then pure false else (do
    m ← get
    assign entry physical_address (to_physical m.hhdm_offset frame >>> page_shift)
    assign entry page_size_bit 0
    assign entry is_present 1
    assign entry is_writable 1
    assign entry is_user_accessible 1
    assign entry cache_disabled 0
    assign entry write_through 0
    assign entry execution_disabled 0
    pure true))

unfoldable pub free_page_for_table_entry : (fuel entry : ℕ) → Cmd (Unit {0})
free_page_for_table_entry fuel entry = do
  raw ← load entry
  free_page fuel (shifted_address raw)
  assign entry physical_address 0
  assign entry is_present 0

unfoldable pub allocate_root_page_table : (fuel : ℕ) → Cmd ℕ
allocate_root_page_table fuel = do
  frame ← allocate_page fuel
  (if not (non_null frame) then pure 0 else (do memset frame page_size; pure frame))

unfoldable pub allocate_page_table_for_table_entry : (fuel entry : ℕ) → Cmd Bool
allocate_page_table_for_table_entry fuel entry = do
  done ← allocate_page_for_table_entry fuel entry
  (if not done then pure false else (do
    raw ← load entry
    m ← get
    memset (to_virtual m.hhdm_offset (u64 (get_field physical_address raw <<< page_shift)))
        page_size
    pure true))

-- The index of an address in the tables of a level: `(pageAddress >> 9 * (level - 1)) & 0x1FF`.
unfoldable pub index_at : (level virtual_address : ℕ) → ℕ
index_at level virtual_address =
    let page_address = bit_and virtual_address 0xffff_ffff_ffff >>> page_shift in
    bit_and (page_address >>> (9 * (level - 1))) 0x1ff

-- One level of `map`: a missing table is allocated, whether that succeeds or not, and the entry
-- leads to the next table.
unfoldable pub descend : (fuel entry : ℕ) → Cmd ℕ
descend fuel entry = do
  raw ← load entry
  (if get_field is_present raw == 0
      then (do _ ← allocate_page_table_for_table_entry fuel entry; skip)
      else skip)
  raw ← load entry
  m ← get
  pure (pe2v m.hhdm_offset raw)

unfoldable pub map : (fuel root virtual_address to_physical : ℕ) → Cmd (Unit {0})
map fuel root virtual_address to_physical = do
  level3 ← descend fuel (root + 8 * index_at 4 virtual_address)
  level2 ← descend fuel (level3 + 8 * index_at 3 virtual_address)
  level1 ← descend fuel (level2 + 8 * index_at 2 virtual_address)
  assign (level1 + 8 * index_at 1 virtual_address) physical_address (to_physical >>> page_shift)
  assign (level1 + 8 * index_at 1 virtual_address) is_present 1
  assign (level1 + 8 * index_at 1 virtual_address) is_writable 1
  assign (level1 + 8 * index_at 1 virtual_address) is_user_accessible 1

unfoldable pub shallow_copy : (fuel root : ℕ) → Cmd ℕ
shallow_copy fuel root = do addr ← allocate_page fuel; memcpy (page_size / 8) addr root; pure addr
