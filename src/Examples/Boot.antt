-- ===== src/Examples/Boot.antt =====
-- A boot with two processors and two entries of usable memory.
use xesual.Base.{
  ◌/◌, ◌≡◌, ◌⊎◌, refl, inl, arith, true, some, none, List, [], ◌∷◌, ◌==◌, if◌then◌else◌,
}
use xesual.Machine.{Machine, ok, hang, skip}
use xesual.Address.{page_size}
use xesual.Smp.{lapic_id}
use xesual.Cpu.{this_cpu}
use xesual.PhysicalMemory.{allocate_page, allocate_pages}
use xesual.PhysicalMemory.Chunks.{Cells, Ordered, first_fit}
use xesual.PhysicalMemory.Access.{Holds}
use xesual.PhysicalMemory.Allocate.{Grants, allocate_pages-first_fit}
use xesual.Boot.{
  MemmapEntry, SmpResponse, Responses, init_by_adding_usable_pages_to_memory_management,
}
use xesual.Boot.MemoryMap.{init_by_adding-usable}
use xesual.Boot.Processors.{initialize_processors}
use xesual.Boot.Processors.Entries.{initialize_processors-entered}
use xesual.Examples.Processes.{unprinted}
use xesual.Boot.Main.{Image, paint, stack_size, boot, kernel_main}
use xesual.Boot.Main.Paint.{painted, paint-painted}
use xesual.Boot.Main.Missing.{Answered, kernel_main-Answered}
use xesual.Examples.Machines.{booted, eight}

-- Two usable entries with one between them that is not.
abbrev two_ranges : List MemmapEntry
two_ranges =
    record { base = 0x1000; length = 0x9f000; kind = 0 }
    ∷ record { base = 0xa0000; length = 0x60000; kind = 1 }
    ∷ record { base = 0x100000; length = 0x700000; kind = 0 }
    ∷ []

init_by_adding-usable_example :
    (m' : Machine) × (init_by_adding_usable_pages_to_memory_management 4 0x10_0000_0000 two_ranges
        booted
      ≡ ok 0x800000 m')
    × Holds m' ((0x10_0000_1000, 0x9f) ∷ (0x10_0010_0000, 0x700) ∷ [])
init_by_adding-usable_example =
    init_by_adding-usable 4 0x10_0000_0000 two_ranges booted
      (omega arith, (omega arith, (omega arith, tt)))
      (omega arith, omega arith, omega arith, (omega arith, omega arith, omega arith, tt))
      (omega arith)

abbrev two_processors : SmpResponse
two_processors = record { bsp_lapic_id = 0; lapic_ids = 0 ∷ 4 ∷ [] }

-- Eight pages, before the lock is in use.
abbrev eight_unshared : Machine
eight_unshared = record booted { page_list = 0x10000; mem = λ a. if a == 0x10010 then 8 else 0 }

eight_unshared-Holds : Holds (record eight_unshared { cpu_count = 2 }) eight
eight_unshared-Holds = record {
  ready = record { usable = inl refl; free = λ t. refl };
  linked = (refl, omega arith, refl, refl, refl);
}

eight-Ordered : Ordered 0x10000 eight
eight-Ordered = (omega arith, omega arith, omega arith, tt)

granted :
    Grants 0x17000
      ((0x10000, 7) ∷ [])
      (allocate_pages 2 1 (record eight_unshared { cpu_count = 2 }))
unfolding first_fit
granted =
    allocate_pages-first_fit 2 1 0x10000 (record eight_unshared { cpu_count = 2 }) eight
      eight_unshared-Holds (omega arith) eight-Ordered (omega arith)

-- The second processor, as the first sees it.
initialize_processors-entered_example :
    (m' : Machine) × (initialize_processors 0x9000 2 two_processors eight_unshared ≡ ok tt m')
    × (this_cpu m' ≡ some 0)
    × ((m'.cpus 1).apic_id ≡ 4)
    × ((m'.cpus 1).cli_count ≡ 1)
    × ((m'.cpus 1).current_process ≡ none)
    × (m'.goto_address 1 ≡ 0x9000)
    × (m'.using_lock ≡ true)
unfolding allocate_page lapic_id
initialize_processors-entered_example =
    initialize_processors-entered 0x9000 2 0 1 4 0x17000 two_processors eight_unshared granted.after
      granted.runs (omega arith) (omega arith) refl refl

-- Thirty-two pages, of which the last sixteen become the stack.
abbrev thirty_two : Cells
thirty_two = (0x10000, 32) ∷ []

abbrev with_thirty_two : Machine
with_thirty_two = record booted { page_list = 0x10000; mem = λ a. if a == 0x10010 then 32 else 0 }

stack_granted :
    Grants 0x20000 ((0x10000, 16) ∷ []) (allocate_pages 2 (stack_size / page_size) with_thirty_two)
unfolding first_fit
stack_granted =
    allocate_pages-first_fit 2 16 0x10000 with_thirty_two thirty_two
      (record {
        ready = record { usable = inl refl; free = λ t. refl };
        linked = (refl, omega arith, refl, refl, refl);
      })
      (omega arith) (omega arith, omega arith, omega arith, tt) (omega arith)

with_thirty_two-here : this_cpu with_thirty_two ≡ some 0
unfolding this_cpu lapic_id
with_thirty_two-here = refl

-- A bootloader that gives no memory map, and one that gives everything.
abbrev image : Image
image = record {
  kernel_start = 0;
  kernel_end = 0;
  stubs = λ s. 0;
  idt_entries = 0;
  syscall_handler = 0;
  trap_ret = 0;
  process_entry_point = 0;
  my_first_userspace = 0;
  my_first_userspace_end = 0;
  other_processor_main = 0;
  pending = λ k. k == 0;
}

abbrev given : Responses
given = record {
  memmap = some two_ranges;
  hhdm = some 0x10_0000_0000;
  kernel_address = some (record { physical_base = 0x200000; virtual_base = 0xffff_ffff_8000_0000 });
  smp = some two_processors;
}

kernel_main-Answered_example :
    (Answered given
      × (kernel_main unprinted image skip 1 1 given booted
          ≡ boot unprinted image skip 1 1 given booted))
    ⊎ (kernel_main unprinted image skip 1 1 given booted ≡ hang)
kernel_main-Answered_example = kernel_main-Answered unprinted image skip 1 1 given booted

-- Four by three pixels.
paint-painted_example :
    paint 0xe000_0000 4 3 booted
    ≡ ok tt (record booted { mmio = painted booted.mmio 0xe000_0000 12 })
paint-painted_example = paint-painted 0xe000_0000 4 3 booted (omega arith) (omega arith)

-- A display with its framebuffer at 0xfd000000, prefetchable, and its registers at 0xfebf0000.
abbrev with_display : Machine
with_display = record booted {
  config_space =
      λ a. if a == 0x8000_1010 then 0xfd00_0008 else if a == 0x8000_1018 then 0xfebf_0000 else 0;
}
