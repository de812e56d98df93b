-- ===== src/Boot/Main.antt =====
-- The entry points of Kernel/KernelMain.cpp: `KernelMain`, `OtherProcessorMain` and what both run
-- into, `SharedMain`. What is logged, `Pause` and the addresses of labels are parameters.
pub mod Paint
pub mod Stack
pub mod Missing
use xesual.Base.{
  ℕ, zero, suc, ◌+◌, ◌*◌, ◌/◌, ◌^◌, Bool, true, false, not, ◌&&◌, Option, none, some, List, [], ◌∷◌,
  ◌==◌, if◌then◌else◌, u64, update, ltb,
}
use xesual.Machine.{Machine, CpuState, ok, fault, Cmd, ◌>>=◌, ◌>>◌, pure, skip, when, get, for_loop}
use xesual.Address.{page_size}
use xesual.Smp.{lapic_id, set_apic_base}
use xesual.Cpu.{this_cpu, pop_cli}
use xesual.Cpu.Registers.{set_kernel_gs_base, set_syscall_rip, set_star_register}
use xesual.Console.{
  LogLine, booting_processor, failed_to_allocate_a_stack, thats_a_qemu, found_device,
  framebuffer_is_at, resolution_is, going_to_schedule, logfn, init_log_lock,
}
use xesual.Gdt.Table
use xesual.Gdt.Table.{Table, install}
use xesual.Traps.{Stub, setup_idt_table, load_idt_table}
use xesual.LocalApic.{set_lapic_address, init_lapic}
use xesual.Pci.{scan}
use xesual.PhysicalMemory.{allocate_pages}
use xesual.Processes.{schedule}
use xesual.Processes.First.{create_first_process}
use xesual.Graphics.{DispiIndex, framebuffer_address, read}
use xesual.Boot.{
  Responses, MemmapEntry, KernelAddress, SmpResponse, halt,
  check_that_limine_gave_us_everything_we_need, init_by_adding_usable_pages_to_memory_management,
  initialize_virtual_memory, cpu_address, use_kernel_page_table, disable_all_legacy_interrupts,
}
use xesual.Boot.Processors.{initialize_processors}

-- The addresses of labels, and what surrounds the code.
pub record Image : Type 0 where
  pub kernel_start : ℕ
  pub kernel_end : ℕ
  pub stubs : Stub → ℕ
  pub idt_entries : ℕ
  pub syscall_handler : ℕ
  pub trap_ret : ℕ
  pub process_entry_point : ℕ
  pub my_first_userspace : ℕ
  pub my_first_userspace_end : ℕ
  pub other_processor_main : ℕ
  pub pending : ℕ → Bool  -- whether the local APIC is delivering a command, read by read

-- An access through the pointer that `thisCPU` returns.
abbrev pub at_cpu {ℓ} : {A : Type ℓ} → Option ℕ → (ℕ → Cmd A) → Cmd A
at_cpu none k = λ _. fault
at_cpu (some i) k = k i

abbrev pub with_this_cpu {ℓ} : {A : Type ℓ} → (ℕ → Cmd A) → Cmd A
with_this_cpu k m = at_cpu (this_cpu m) k m

abbrev pub set_interrupt_stack : (stack i : ℕ) → Cmd (Unit {0})
set_interrupt_stack stack i m =
    ok tt (record m { cpus = update m.cpus i (record (m.cpus i) { interrupt_stack = stack }) })

abbrev pub interrupt_stack_of : (i : ℕ) → Cmd ℕ
interrupt_stack_of i m = ok (m.cpus i).interrupt_stack m

-- Where the table of the state `i` stands, 32 bytes behind its beginning.
abbrev pub table_address : Machine → (i : ℕ) → ℕ
table_address m i = cpu_address m.cpus_address i + 32

abbrev pub init_table : (stack_location i : ℕ) → Cmd (Unit {0})
init_table stack_location i m = ok tt (record m {
  tables = update m.tables i (Table.init (table_address m i) stack_location (m.tables i));
})

abbrev install_table : (i : ℕ) → Cmd (Unit {0})
install_table i m = ok tt (record m { segments = install (table_address m i) })

-- A change of the registers of the executing processor.
abbrev change : (Machine → Machine) → Cmd (Unit {0})
change f m = ok tt (f m)

abbrev pub stack_size : ℕ
stack_size = 16 * page_size

abbrev pub store_pixel : (address colour : ℕ) → Cmd (Unit {0})
store_pixel address colour m = ok tt (record m { mmio = update m.mmio address colour })

abbrev pub colour : ℕ
colour = 0x3daee9

-- `pix[x + y*xres] = 0x3DAEE9;`: the index is an `int`, and what is done is undefined where its value
-- does not fit.
abbrev pub paint_pixel : (pix xres y x : ℕ) → Cmd (Unit {0})
paint_pixel pix xres y x =
    if ltb (x + y * xres) (2 ^ 31)
    then store_pixel (u64 (pix + 4 * (x + y * xres))) colour
    else λ _. fault

unfoldable pub paint : (pix xres yres : ℕ) → Cmd (Unit {0})
paint pix xres yres = for_loop yres 0 λ y. for_loop xres 0 (paint_pixel pix xres y)

module _ (printed : LogLine → List ℕ) where
  -- The callback of the scan.
  unfoldable pub show_device : (dev vid did : ℕ) → Cmd (Unit {0})
  unfolding paint
  show_device dev vid did = do
    logfn (printed (found_device dev vid did))
    when (vid == 0x1234 && did == 0x1111) (do
      logfn (printed thats_a_qemu)
      fb ← framebuffer_address dev
      xres ← read dev DispiIndex.x_res
      yres ← read dev DispiIndex.y_res
      bpp ← read dev DispiIndex.bpp
      paint fb xres yres
      logfn (printed (framebuffer_is_at fb))
      logfn (printed (resolution_is xres yres bpp)))

  -- The first part of `SharedMain`: the stack, and the table that tells it to the processor.
  unfoldable pub set_up_stack : (fuel : ℕ) → Cmd (Unit {0})
  set_up_stack fuel = do
    stack ← allocate_pages fuel (stack_size / page_size)
    with_this_cpu (set_interrupt_stack stack)
    stack ← with_this_cpu interrupt_stack_of
    when (stack == 0) (do logfn (printed failed_to_allocate_a_stack); halt)
    stack ← with_this_cpu interrupt_stack_of
    with_this_cpu (init_table stack)

  module _ (image : Image) (pause : Cmd (Unit {0})) (rounds fuel : ℕ) where
    unfoldable pub shared_main : Cmd (Unit {0})
    unfolding set_up_stack show_device
    shared_main = do
      m ← get
      logfn (printed (booting_processor (lapic_id m)))
      set_up_stack fuel
      with_this_cpu install_table
      m ← get
      with_this_cpu (λ i. change (set_kernel_gs_base (cpu_address m.cpus_address i)))
      with_this_cpu (λ _. change (set_syscall_rip image.syscall_handler))
      with_this_cpu (λ _. change set_star_register)
      change (λ m. record m { idtr = load_idt_table image.idt_entries })
      pop_cli
      scan show_device none fuel
      m ← get
      logfn (printed (going_to_schedule (lapic_id m)))
      schedule printed pause rounds fuel

    unfoldable pub other_processor_main : Cmd (Unit {0})
    unfolding shared_main
    other_processor_main = do
      use_kernel_page_table
      change (set_apic_base 0xfee00000)
      init_lapic fuel image.pending
      shared_main

    -- The pointers that `checkThatLimineGaveUsEverythingWeNeed` has tested.
    abbrev response {ℓ} : {A : Type ℓ} → Option A → Cmd A
    response none = λ _. fault
    response (some a) = pure a

    -- What `KernelMain` does behind the check.
    unfoldable pub boot : Responses → Cmd (Unit {0})
    unfolding shared_main
    boot r = do
      offset ← response r.hhdm
      entries ← response r.memmap
      max_physical_address ← init_by_adding_usable_pages_to_memory_management fuel offset entries
      address ← response r.kernel_address
      initialize_virtual_memory rounds fuel image.kernel_start image.kernel_end address
          max_physical_address
      init_log_lock
      change (set_apic_base 0xfee00000)
      set_lapic_address
      change (λ m. record m { idt_entries = setup_idt_table image.stubs m.idt_entries })
      smp ← response r.smp
      initialize_processors image.other_processor_main fuel smp
      disable_all_legacy_interrupts
      init_lapic fuel image.pending
      create_first_process image.trap_ret image.process_entry_point image.my_first_userspace
          image.my_first_userspace_end fuel
      shared_main

    unfoldable pub kernel_main : Responses → Cmd (Unit {0})
    unfolding boot
    kernel_main r = do check_that_limine_gave_us_everything_we_need r; boot r
