-- ===== src/Examples/Launch.antt =====
-- The first process: its entry, its page tables, its code and its trap frame.
use xesual.Base.{ℕ, ◌+◌, ◌*◌, ◌≡◌, inl, inr, refl, arith, some, []}
use xesual.Machine.{Machine, fresh, runnable, running, table_lock, ok, update}
use xesual.Machine.Memory.{load, store, memcpy}
use xesual.Address.{page_size, to_virtual, to_physical}
use xesual.Smp.{lapic_id}
use xesual.Cpu.{this_cpu}
use xesual.Cpu.Nesting.{Nesting}
use xesual.Spinlock.Sections.{switched}
use xesual.PhysicalMemory.{
  allocate_page, allocate_pages, reserve, reserve_loop, take_pages, unlink, lock_pages,
  unlock_pages, address_in,
}
use xesual.VirtualMemory.{map, shallow_copy, index_at}
use xesual.VirtualMemory.Roots.{with_copy, shallow_copy-translate}
use xesual.VirtualMemory.Translation.{Tables, mapped, map-translate}
use xesual.Processes.{find_unused, process_count, size_of_registers, allocate_process, free_process}
use xesual.Processes.Table.{prepared}
use xesual.Processes.Fresh.{
  Section, claimed, with_stack, allocate_process-prepared, allocate_process-fresh,
}
use xesual.Processes.First.{memcpy_bytes, memcpy_tail, create_first_process, entrypoint}
use xesual.Processes.First.Runs.{create_first_process-runnable}
use xesual.Processes.Reuse.{free_process-reused}
use xesual.PhysicalMemory.Chunks.{place}
use xesual.PhysicalMemory.Access.{Holds}
use xesual.Examples.Machines.{no_process, eight, with_eight, eight-Holds}
use xesual.Examples.Tables.{paged}

-- No process is there, and the kernel's root is at 0x1000.
abbrev idle : Machine
idle = record paged { kernel_page_table = 0x1000 }

idle-Nesting : Nesting 0 idle
unfolding this_cpu lapic_id
idle-Nesting = record { here = refl; room = omega arith; off = λ h. absurd (h refl) }

-- One page fewer.
abbrev pages_left : ℕ → Machine → Machine
pages_left n m = record m { mem = update m.mem 0x10010 n }

abbrev entered : Machine
entered = switched 0 table_lock 1 idle

table_page : allocate_page 1 entered ≡ ok 0x17000 (pages_left 7 entered)
unfolding allocate_page allocate_pages reserve reserve_loop take_pages unlink lock_pages
    unlock_pages address_in load store
table_page = refl

abbrev with_table : Machine
with_table = with_copy (pages_left 7 entered) 0x17000 0x1000

table_copy : shallow_copy 1 0x1000 entered ≡ ok 0x17000 with_table
unfolding index_at to_virtual
table_copy =
    (shallow_copy-translate 1 0x17000 0x1000 0x1234 entered (pages_left 7 entered) table_page
      (λ e. omega arith) (λ e. omega arith) (inl (omega arith)) (inl (omega arith))
      (inl (omega arith)) (inl (omega arith))).0

with_table-Section : Section 0 1 with_table
unfolding this_cpu lapic_id
with_table-Section = record {
  nesting = record { here = refl; room = omega arith; off = λ h. absurd (h refl) };
  lock = refl;
}

abbrev left : Machine
left = switched 0 table_lock 0 (claimed 0 0x17000 with_table)

stack_page : allocate_page 1 left ≡ ok 0x16000 (pages_left 6 left)
unfolding allocate_page allocate_pages reserve reserve_loop take_pages unlink lock_pages
    unlock_pages address_in load store
stack_page = refl

allocate_process-fresh_example :
    (m' : Machine) × (allocate_process 0x1000 0x2000 1 idle ≡ ok (some 0) m')
    × ((m'.processes 0).state ≡ fresh)
    × ((m'.processes 0).page_table ≡ 0x17000)
    × ((m'.processes 0).kernel_stack ≡ 0x16000)
    × ((m'.processes 0).trap_frame + size_of_registers ≡ 0x16000 + page_size)
    × (m'.processes 1 ≡ idle.processes 1)
    × Section 0 0 m'
unfolding find_unused
allocate_process-fresh_example =
    allocate_process-fresh 0x1000 0x2000 1 0 0 1 0x17000 0x16000 idle with_table (pages_left 6 left)
      idle-Nesting refl refl (λ e. omega arith) table_copy stack_page (λ e. omega arith)

abbrev allocated : Machine
allocated = prepared 0x1000 0x2000 0 0x16000 (with_stack 0 0x16000 (pages_left 6 left))

idle_process : allocate_process 0x1000 0x2000 1 idle ≡ ok (some 0) allocated
unfolding find_unused
idle_process =
    allocate_process-prepared 0x1000 0x2000 1 0 0 0x17000 0x16000 idle with_table
      (pages_left 6 left) (record { nesting = idle-Nesting; lock = refl }) refl table_copy
      with_table-Section stack_page (λ e. omega arith)

allocated-Section : Section 0 0 allocated
unfolding this_cpu lapic_id
allocated-Section = record {
  nesting = record { here = refl; room = omega arith; off = λ h. absurd (h refl) };
  lock = refl;
}

code_page : allocate_page 1 allocated ≡ ok 0x15000 (pages_left 5 allocated)
unfolding allocate_page allocate_pages reserve reserve_loop take_pages unlink lock_pages
    unlock_pages address_in load store
code_page = refl

-- Twelve bytes of code at 0x9000.
abbrev with_code : Machine
with_code = record (pages_left 5 allocated) {
  mem = update (update (pages_left 5 allocated).mem 0x15000 0) 0x15008 0;
}

code_copy : memcpy_bytes 0x15000 0x9000 12 (pages_left 5 allocated) ≡ ok tt with_code
unfolding memcpy_bytes memcpy_tail memcpy load store
code_copy = refl

with_code-Tables : Tables with_code 0x17000 entrypoint
unfolding index_at to_virtual
with_code-Tables = record {
  leads4 = record { ne = λ e. omega arith; present = refl; low = omega arith };
  leads3 = record { ne = λ e. omega arith; present = refl; low = omega arith };
  leads2 = record { ne = λ e. omega arith; present = refl; low = omega arith };
  ne1 = λ e. omega arith;
  apart4 = λ e. omega arith;
  apart3 = λ e. omega arith;
  apart2 = λ e. omega arith;
}

abbrev placed : Machine
placed = mapped with_code 0x17000 entrypoint 0x15000

code_map : map 1 0x17000 entrypoint 0x15000 with_code ≡ ok tt placed
unfolding index_at to_virtual
code_map =
    (map-translate 1 0x17000 entrypoint 0x15000 with_code with_code-Tables refl (omega arith)).0

create_first_process-runnable_example :
    (m' : Machine) × (create_first_process 0x1000 0x2000 0x9000 0x900c 1 idle ≡ ok tt m')
    × (m'.processes 0 ≡ record (allocated.processes 0) { state = runnable })
    × (m'.mem ((allocated.processes 0).trap_frame + 8 * 19) ≡ 0x200)
    × Section 0 0 m'
unfolding to_physical
create_first_process-runnable_example =
    create_first_process-runnable 0x1000 0x2000 0x9000 0x900c 1 0 0 0x15000 19 idle allocated
      (pages_left 5 allocated) with_code placed idle_process allocated-Section code_page code_copy
      code_map (omega arith)

-- Each process has the page at 0x20000 for its stack.
abbrev pub all_running : Machine
all_running = record with_eight {
  processes = λ p. record no_process { state = running; kernel_stack = 0x20000 };
}

all_running-Nesting : Nesting 0 all_running
unfolding this_cpu lapic_id
all_running-Nesting = record { here = refl; room = omega arith; off = λ h. absurd (h refl) }

all_running-Holds : Holds all_running eight
all_running-Holds = record {
  ready = record { usable = inr (0, all_running-Nesting); free = λ t. refl };
  linked = eight-Holds.linked;
}

free_process-reused_example :
    (m' : Machine) × (free_process 2 1 all_running ≡ ok tt m')
    × Holds m' (place 0x20000 1 eight)
    × (find_unused process_count 0 m'.processes ≡ some 1)
    × (m'.processes 2 ≡ all_running.processes 2)
    × Section 0 0 m'
free_process-reused_example =
    free_process-reused 2 0 1 2 0x10000 8 0x10000 [] all_running
      (record { nesting = all_running-Nesting; lock = refl }) all_running-Holds (omega arith)
      (omega arith, omega arith, omega arith, tt) (omega arith) (omega arith) (omega arith)
      (omega arith) (omega arith) (λ j b. refl) (λ e. omega arith)
