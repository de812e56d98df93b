-- ===== src/Boot/Main/Stack.antt =====
-- The stack for interrupts that `SharedMain` gives its processor.
use xesual.Base.{ℕ, ◌/◌, ◌≡◌, ◌≢◌, refl, ap, ◌∙◌, arith, some, List, ==_ne, update}
use xesual.Machine.{Machine, ok, Cmd}
use xesual.Address.{page_size}
use xesual.Smp.{lapic_id}
use xesual.Cpu.{this_cpu}
use xesual.Cpu.Nesting.{this_cpu_same, update_here}
use xesual.Gdt.Table
use xesual.PhysicalMemory.{allocate_pages}
use xesual.PhysicalMemory.Frame.{allocate_pages-same}
use xesual.Spinlock.Frame.{this_cpu-Ignored}
use xesual.Console.{LogLine}
use xesual.Boot.Main.{
  at_cpu, with_this_cpu, set_interrupt_stack, interrupt_stack_of, init_table, table_address,
  stack_size, set_up_stack,
}

-- The processor's state with the stack noted.
abbrev pub noted : Machine → (i stack : ℕ) → Machine
noted m i stack = record m {
  cpus = update m.cpus i (record (m.cpus i) { interrupt_stack = stack });
}

this_cpu-noted :
    (m : Machine) (i stack : ℕ) → this_cpu m ≡ some i → this_cpu (noted m i stack) ≡ some i
unfolding lapic_id
this_cpu-noted m i stack here =
    this_cpu_same m (noted m i stack) refl refl (λ k. ground arith) ∙ here

with_this_cpu-at {ℓ} :
    {A : Type ℓ} (k : ℕ → Cmd A) (i : ℕ) (m : Machine)
    → this_cpu m ≡ some i
    → with_this_cpu k m ≡ k i m
with_this_cpu-at k i m here = ap (λ o. at_cpu o k m) here

-- Where the sixteen pages are allocated, `set_up_stack` ends: the processor's own state notes their
-- address, the lowest one, and its task state segment takes that address for the stack of ring 0.
pub set_up_stack-lowest :
    (printed : LogLine → List ℕ) (fuel i stack : ℕ) (m m₁ : Machine)
    → allocate_pages fuel (stack_size / page_size) m ≡ ok stack m₁
    → this_cpu m ≡ some i
    → stack ≢ 0
    → (m' : Machine) × (set_up_stack printed fuel m ≡ ok tt m')
      × ((m'.cpus i).interrupt_stack ≡ stack)
      × ((m'.tables i).the_tss_entry_itself.stack_pointers 0 ≡ stack)
unfolding set_up_stack Table.init
set_up_stack-lowest printed fuel i stack m m₁ e at ne =
    let here : this_cpu m₁ ≡ some i =
      allocate_pages-same _ this_cpu-Ignored fuel (stack_size / page_size) m stack m₁ e ∙ at in
    let here' = this_cpu-noted m₁ i stack here in
    let read : with_this_cpu interrupt_stack_of (noted m₁ i stack) ≡ ok stack (noted m₁ i stack) =
      with_this_cpu-at interrupt_stack_of i (noted m₁ i stack) here'
      ∙ ap (λ c. ok c.interrupt_stack (noted m₁ i stack)) (update_here m₁.cpus i _) in
    (
      record (noted m₁ i stack) {
        tables = update m₁.tables i (Table.init (table_address m₁ i) stack (m₁.tables i));
      },
      rw
          (
            e,
            with_this_cpu-at (set_interrupt_stack stack) i m₁ here,
            read,
            ==_ne stack 0 ne,
            read,
            with_this_cpu-at (init_table stack) i (noted m₁ i stack) here',
          )
          refl,
      ap (λ c. c.interrupt_stack) (update_here m₁.cpus i _),
      ap (λ t. t.the_tss_entry_itself.stack_pointers 0) (update_here m₁.tables i _),
    )
