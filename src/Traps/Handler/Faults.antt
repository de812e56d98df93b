-- ===== src/Traps/Handler/Faults.antt =====
-- Faults of the kernel and faults of processes.
use xesual.Base.{ℕ, List, ◌≡◌, ◌≢◌, ◌⊎◌, inl, inr, refl, ap, true, none, some, ==_ne, Option, ◌∙◌}
use xesual.Machine.{Machine, ok, hang, Cmd, ◌>>◌, pure}
use xesual.Cpu.{this_cpu}
use xesual.Cpu.Nesting.{Nesting}
use xesual.Console.{Why, gpf_in_kernel_code, page_fault_in_kernel_code, LogLine}
use xesual.Traps.Panic.Stops.{panic-hangs}
use xesual.Gdt.Table.{TableField, offset_of}
use xesual.Processes.{exit_current_process}
use xesual.Traps.Registers.{InterruptRegisters}
use xesual.Traps.Handler.{
  general_protection_fault, page_fault, is_kernel, in_kernel, handle_fault, trap_handler,
}

-- The two exceptions that a process may be ended for.
abbrev pub IsFault : ℕ → Type 0
IsFault n = (n ≡ general_protection_fault) ⊎ (n ≡ page_fault)

-- The fault happened in the kernel: no process runs, or the code segment is the kernel's.
abbrev pub InKernel : Machine → (i cs : ℕ) → Type 0
InKernel m i cs = ((m.cpus i).current_process ≡ none) ⊎ (cs ≡ offset_of TableField.kernel_code)

in_kernel-true :
    (i cs : ℕ) (m : Machine) → this_cpu m ≡ some i → InKernel m i cs → in_kernel cs m ≡ ok true m
unfolding in_kernel
in_kernel-true i cs m here (inl e) = rw (here, e) refl
in_kernel-true i cs m here (inr e) =
    rw (here, e) (ap (λ b. ok b m) (either (m.cpus i).current_process))
  where
    either : (o : Option ℕ) → is_kernel (offset_of TableField.kernel_code) o ≡ true
    either none = refl
    either (some p) = refl

-- Which of the two it is.
abbrev pub why_of : {n : ℕ} → IsFault n → Why
why_of (inl e) = gpf_in_kernel_code
why_of (inr e) = page_fault_in_kernel_code

module _ (printed : LogLine → List ℕ) (pause : Cmd (Unit {0})) (fuel i : ℕ)
    (registers : InterruptRegisters) (m : Machine) where
  at_fault :
      (f : IsFault registers.interrupt_number)
      → trap_handler printed pause fuel registers m
        ≡ (handle_fault printed pause fuel (why_of f) registers >> pure registers) m
  unfolding trap_handler
  at_fault (inl e) = rw e refl
  at_fault (inr e) = rw e refl

  -- A general protection fault or a page fault in the kernel, with no process or in the kernel's code
  -- segment, stops the processor, whatever the state of the lock of the log is.
  pub trap_handler-panics :
      Nesting i m
      → IsFault registers.interrupt_number
      → InKernel m i registers.cs
      → trap_handler printed pause fuel registers m ≡ hang
  unfolding handle_fault
  trap_handler-panics n f k =
      at_fault f
      ∙ rw
          (in_kernel-true i registers.cs m n.here k, panic-hangs printed i (why_of f) registers m n)
          refl

  -- A general protection fault or a page fault in the code of a process ends that process, and the
  -- registers are returned as they were.
  pub trap_handler-exits :
      (p : ℕ)
      → this_cpu m ≡ some i
      → IsFault registers.interrupt_number
      → (m.cpus i).current_process ≡ some p
      → registers.cs ≢ offset_of TableField.kernel_code
      → trap_handler printed pause fuel registers m
        ≡ (exit_current_process pause fuel >> pure registers) m
  unfolding handle_fault in_kernel
  trap_handler-exits p here f e ne =
      at_fault f ∙ rw (here, e, ==_ne registers.cs (offset_of TableField.kernel_code) ne) refl
