-- ===== src/Boot.antt =====
-- Kernel/KernelMain.cpp: what the processors do from the bootloader's call on. The responses of the
-- bootloader and the addresses that the linker gives are arguments.
pub mod MemoryMap
pub mod DirectMap
pub mod Dump
pub mod Processors
pub mod Main
use xesual.Base.{
  ℕ, zero, suc, ◌+◌, ◌-◌, ◌*◌, ◌/◌, ◌%◌, ◌^◌, Bool, true, false, not, Option, none, some, List, [],
  ◌∷◌, length, ◌==◌, if◌then◌else◌, ltb, u64, update,
}
use xesual.Machine.{
  Machine, CpuState, ok, fault, hang, out_of_fuel, Cmd, ◌>>=◌, ◌>>◌, pure, skip, when, get,
  for_loop,
}
use xesual.Machine.Memory.{load, memset}
use xesual.Address.{page_size, to_physical}
use xesual.Paging.{get_field, is_present}
use xesual.PhysicalMemory
use xesual.PhysicalMemory.{allocate_page, free_range, there_is_now_more_than_one_processor}
use xesual.VirtualMemory.{allocate_root_page_table, allocate_page_table_for_table_entry, map}
use xesual.Processes.{load_cr3}
use xesual.Gdt.{become, system_entry, system_access, null_flags}
use xesual.Gdt.Table.{Table, TssEntry}
use xesual.Console.{outb}

-- The responses, as far as they are read.
pub record MemmapEntry : Type 0 where
  pub base : ℕ
  pub length : ℕ
  pub kind : ℕ  -- the field `type`

abbrev pub limine_memmap_usable : ℕ
limine_memmap_usable = 0

pub record KernelAddress : Type 0 where
  pub physical_base : ℕ
  pub virtual_base : ℕ

pub record SmpResponse : Type 0 where
  pub bsp_lapic_id : ℕ
  pub lapic_ids : List ℕ  -- of `cpus`, as many as `cpu_count`

-- `none` is a null pointer.
pub record Responses : Type 0 where
  pub memmap : Option (List MemmapEntry)
  pub hhdm : Option ℕ
  pub kernel_address : Option KernelAddress
  pub smp : Option SmpResponse

unfoldable pub halt : Cmd (Unit {0})
halt = λ _. hang

abbrev pub is_null {ℓ} : {A : Type ℓ} → Option A → Bool
is_null none = true
is_null (some a) = false

-- `response == nullptr || response->entry_count < 1`
abbrev pub lacks_entries : Option (List MemmapEntry) → Bool
lacks_entries none = true
lacks_entries (some []) = true
lacks_entries (some (e ∷ es)) = false

unfoldable pub check_that_limine_gave_us_everything_we_need : Responses → Cmd (Unit {0})
unfolding halt
check_that_limine_gave_us_everything_we_need r = do
  when (lacks_entries r.memmap) halt
  when (is_null r.hhdm) halt
  when (is_null r.kernel_address) halt
  when (is_null r.smp) halt

abbrev pub higher : ℕ → MemmapEntry → ℕ
higher maximum entry =
    if ltb maximum (u64 (entry.base + entry.length))
    then u64 (entry.base + entry.length)
    else maximum

-- The loop over the entries of the memory map.
unfoldable pub add_entries : (fuel maximum : ℕ) → List MemmapEntry → Cmd ℕ
add_entries fuel maximum [] = pure maximum
add_entries fuel maximum (entry ∷ entries) = do
  m ← get
  when (entry.kind == limine_memmap_usable) (
      free_range fuel (u64 (entry.base + m.hhdm_offset))
        (u64 (entry.base + entry.length + m.hhdm_offset)))
  add_entries fuel (higher maximum entry) entries

abbrev pub set_hhdm_offset : ℕ → Cmd (Unit {0})
set_hhdm_offset offset m = ok tt (record m { hhdm_offset = offset })

unfoldable pub init_by_adding_usable_pages_to_memory_management :
    (fuel hhdm_offset : ℕ) → List MemmapEntry → Cmd ℕ
unfolding add_entries
init_by_adding_usable_pages_to_memory_management fuel offset entries = do
  set_hhdm_offset offset
  PhysicalMemory.init
  add_entries fuel 0 entries

abbrev set_kernel_page_table : ℕ → Cmd (Unit {0})
set_kernel_page_table root m = ok tt (record m { kernel_page_table = root })

-- `for (auto i = start; i < end; i += PageSize) body(i);` on fuel for its rounds.
unfoldable pub each_page : (rounds start end : ℕ) → (ℕ → Cmd (Unit {0})) → Cmd (Unit {0})
each_page zero i end body = λ _. out_of_fuel
each_page (suc rounds) i end body =
    if ltb i end then (do body i; each_page rounds (u64 (i + page_size)) end body) else skip

-- The bodies of the two loops that map.
unfoldable pub map_physical : (fuel i : ℕ) → Cmd (Unit {0})
map_physical fuel i = do m ← get; map fuel m.kernel_page_table (u64 (i + m.hhdm_offset)) i

unfoldable pub map_kernel : (fuel : ℕ) → KernelAddress → (i : ℕ) → Cmd (Unit {0})
map_kernel fuel resp i = do
  m ← get
  map fuel m.kernel_page_table i (u64 (resp.physical_base + (i + 2 ^ 64 - resp.virtual_base)))

-- The body of the loop over the entries of the higher half.
unfoldable pub preallocate : (fuel i : ℕ) → Cmd (Unit {0})
preallocate fuel i = do
  m ← get
  raw ← load (m.kernel_page_table + 8 * i)
  when (get_field is_present raw == 0)
      (do _ ← allocate_page_table_for_table_entry fuel (m.kernel_page_table + 8 * i); skip)

unfoldable pub use_kernel_page_table : Cmd (Unit {0})
use_kernel_page_table m = load_cr3 (to_physical m.hhdm_offset m.kernel_page_table) m

unfoldable pub initialize_virtual_memory :
    (rounds fuel kernel_start kernel_end : ℕ)
    → KernelAddress
    → (max_physical_memory : ℕ) → Cmd (Unit {0})
unfolding each_page map_physical map_kernel preallocate use_kernel_page_table
initialize_virtual_memory rounds fuel kernel_start kernel_end resp max_physical_memory = do
  root ← allocate_root_page_table fuel
  set_kernel_page_table root
  each_page rounds 0 max_physical_memory (map_physical fuel)
  each_page rounds kernel_start kernel_end (map_kernel fuel resp)
  for_loop 256 256 (preallocate fuel)
  use_kernel_page_table

-- The array `CPUs`: 224 bytes for each `CPUState`.
abbrev pub size_of_cpu_state : ℕ
size_of_cpu_state = 224

abbrev pub cpu_address : (cpus i : ℕ) → ℕ
cpu_address cpus i = cpus + size_of_cpu_state * i

unfoldable pub disable_all_legacy_interrupts : Cmd (Unit {0})
disable_all_legacy_interrupts = do outb (0x20 + 1) 0xff; outb (0xa0 + 1) 0xff
