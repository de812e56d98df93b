-- ===== src/Assembly/Traps/Halt.antt =====
-- Kernel/Traps.S: `HaltInterrupt` and `HaltInterrupt2`, which are the same code.
use xesual.Base.{ℕ, zero, suc, ◌-◌, ◌/◌, ◌%◌, ◌^◌, ◌≡◌, ◌==◌, refl, arith, if◌then◌else◌}
use xesual.Assembly.{Core}

-- The instruction that is next.
pub data Instruction : Type 0 where
  cli hlt jmp : Instruction

-- The interrupt flag is bit 9.
abbrev pub interrupts_off : Core → Core
interrupts_off c = record c {
  rflags = if c.rflags / 2 ^ 9 % 2 == 1 then c.rflags - 2 ^ 9 else c.rflags;
}

-- One instruction. `hlt` goes on after an interrupt that no flag masks.
abbrev pub halt_step : Instruction × Core → Instruction × Core
halt_step (cli, c) = (hlt, interrupts_off c)
halt_step (hlt, c) = (jmp, c)
halt_step (jmp, c) = (hlt, c)

unfoldable pub halt_run : ℕ → Instruction × Core → Instruction × Core
halt_run zero s = s
halt_run (suc n) s = halt_run n (halt_step s)

in_loop : (n : ℕ) (c : Core) → ((halt_run n (hlt, c)).1 ≡ c) × ((halt_run n (jmp, c)).1 ≡ c)
unfolding halt_run
in_loop zero c = (refl, refl)
in_loop (suc n) c = ((in_loop n c).1, (in_loop n c).0)

-- However many instructions run, the interrupts stay off, and the registers and the memory are as
-- they were.
pub halt_run-interrupts_off :
    (n : ℕ) (c : Core)
    → ((halt_run (suc n) (cli, c)).1 ≡ interrupts_off c)
      × ((interrupts_off c).rflags / 2 ^ 9 % 2 ≡ 0)
unfolding halt_run
halt_run-interrupts_off n c = ((in_loop n (interrupts_off c)).0, ground arith)
