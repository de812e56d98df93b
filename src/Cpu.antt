-- ===== src/Cpu.antt =====
-- The processor that runs the code: `thisCPU`, `pushCLI` and `popCLI` of
-- Kernel/ProcessManagement.h.
pub mod Nesting
pub mod Registers
use xesual.Base.{
  ℕ, zero, suc, ◌+◌, ◌-◌, ◌^◌, Bool, true, false, Option, none, some, ◌&&◌, ◌==◌, if◌then◌else◌,
  u32,
}
use xesual.Machine.{Machine, CpuState, ok, fault, Cmd, ◌>>=◌, ◌>>◌, skip, get, update}
use xesual.Smp.{lapic_id}

-- The loop of `thisCPU` over the processors from `i` on, `rounds` of them.
unfoldable pub find_cpu : (rounds i : ℕ) → Machine → Option ℕ
find_cpu zero i m = none
find_cpu (suc rounds) i m =
    let rest = find_cpu rounds (i + 1) m in
    if (m.cpus i).apic_id == lapic_id m then some i else rest

-- `none` is the null pointer.
unfoldable pub this_cpu : Machine → Option ℕ
unfolding find_cpu
this_cpu m = find_cpu m.cpu_count 0 m

-- An access through the pointer that `thisCPU` returns.
unfoldable pub modify_this_cpu : (CpuState → CpuState) → Cmd (Unit {0})
modify_this_cpu f m = elim (this_cpu m) [
  | none ↦ fault
  | some i ↦ ok tt (record m { cpus = update m.cpus i (f (m.cpus i)) })
]

unfoldable pub read_this_cpu : Cmd CpuState
read_this_cpu m = elim (this_cpu m) [ none ↦ fault | some i ↦ ok (m.cpus i) m ]

-- The instructions `cli` and `sti`.
abbrev pub set_interrupts : Bool → Cmd (Unit {0})
set_interrupts b m = ok tt (record m { interrupts = b })

abbrev pub note_flags : Bool → CpuState → CpuState
note_flags flags c = if c.cli_count == 0 then record c { were_interrupts_enabled = flags } else c

unfoldable pub push_cli : Cmd (Unit {0})
unfolding modify_this_cpu
push_cli = do
  m ← get
  set_interrupts false
  modify_this_cpu (note_flags m.interrupts)
  modify_this_cpu (λ c. record c { cli_count = u32 (c.cli_count + 1) })

unfoldable pub pop_cli : Cmd (Unit {0})
unfolding modify_this_cpu read_this_cpu
pop_cli = do
  modify_this_cpu (λ c. record c { cli_count = u32 (c.cli_count + 2 ^ 32 - 1) })
  c ← read_this_cpu
  if c.cli_count == 0 && c.were_interrupts_enabled then set_interrupts true else skip
