-- ===== src/Processes/First.antt =====
-- `createFirstProcess` of Kernel/ProcessManagement.cpp: the code of the first process, its page and
-- its trap frame.
pub mod Frame
pub mod Runs
use xesual.Base.{
  ℕ, zero, suc, ◌+◌, ◌-◌, ◌*◌, ◌/◌, ◌%◌, ◌^◌, bit_or, Option, none, some, ◌==◌, if◌then◌else◌, u64,
  sub64, leb, update,
}
use xesual.Machine.{
  Machine, table_lock, ok, fault, runnable, Cmd, ◌>>=◌, ◌>>◌, pure, skip, when, get,
}
use xesual.Machine.Memory.{load, store, memset, memcpy}
use xesual.Address.{to_physical}
use xesual.Gdt.{ring3}
use xesual.Gdt.Table.{TableField, offset_of}
use xesual.Spinlock.{acquire, release}
use xesual.PhysicalMemory.{allocate_page}
use xesual.VirtualMemory.{map}
use xesual.Processes.{size_of_registers, set_state, allocate_process}

-- The addresses of the fields of an `InterruptRegisters` that are written.
abbrev pub rip_of_frame : ℕ → ℕ
rip_of_frame frame = frame + 8 * 17

abbrev pub cs_of_frame : ℕ → ℕ
cs_of_frame frame = frame + 8 * 18

abbrev pub rflags_of_frame : ℕ → ℕ
rflags_of_frame frame = frame + 8 * 19

abbrev pub rsp_of_frame : ℕ → ℕ
rsp_of_frame frame = frame + 8 * 20

abbrev pub ss_of_frame : ℕ → ℕ
ss_of_frame frame = frame + 8 * 21

-- `memcpy` of any number of bytes to and from an address of whole words: the words in it, and the
-- lowest bytes of the word behind them.
unfoldable pub memcpy_tail : (bytes dst src : ℕ) → Cmd (Unit {0})
memcpy_tail bytes dst src = if bytes == 0 then skip else do
  from ← load src
  to ← load dst
  store dst (to / 2 ^ (8 * bytes) * 2 ^ (8 * bytes) + from % 2 ^ (8 * bytes))

unfoldable pub memcpy_bytes : (dst src size : ℕ) → Cmd (Unit {0})
unfolding memcpy memcpy_tail
memcpy_bytes dst src size = do
  memcpy (size / 8) dst src
  memcpy_tail (size % 8) (dst + size / 8 * 8) (src + size / 8 * 8)

abbrev pub entrypoint : ℕ
entrypoint = 0x1000

-- The trap frame at an address, from the `memset` on.
unfoldable pub fill_frame : ℕ → Cmd (Unit {0})
fill_frame frame = do
  memset frame size_of_registers
  store (cs_of_frame frame) (bit_or (offset_of TableField.user_code64) ring3)
  store (ss_of_frame frame) (bit_or (offset_of TableField.user_data64) ring3)
  store (rflags_of_frame frame) 0x200
  store (rsp_of_frame frame) 0
  store (rip_of_frame frame) entrypoint

-- An access through the pointer that `allocateProcess` returns, which may be null.
abbrev pub not_null : Option ℕ → Cmd ℕ
not_null none = λ _. fault
not_null (some p) = pure p

module _ (trap_ret process_entry_point my_first_userspace my_first_userspace_end : ℕ) where
  -- What follows the two allocations.
  unfoldable pub fill_process : (fuel page : ℕ) → Option ℕ → Cmd (Unit {0})
  unfolding fill_frame
  fill_process fuel page process = do
    memcpy_bytes page my_first_userspace (sub64 my_first_userspace_end my_first_userspace)
    p ← not_null process
    m ← get
    map fuel (m.processes p).page_table entrypoint (to_physical m.hhdm_offset page)
    m ← get
    fill_frame (m.processes p).trap_frame
    acquire table_lock
    set_state p runnable
    release table_lock

  unfoldable pub create_first_process : (fuel : ℕ) → Cmd (Unit {0})
  unfolding fill_process
  create_first_process fuel = do
    process ← allocate_process trap_ret process_entry_point fuel
    page ← allocate_page fuel
    fill_process fuel page process
