-- ===== src/Cpu/Registers/Syscall.antt =====
-- The registers that `syscall`, `sysret` and `swapgs` use, after a processor has set them all.
use xesual.Base.{ℕ, zero, suc, ◌+◌, ◌*◌, ◌/◌, ◌%◌, ◌^◌, ◌<◌, ◌≡◌, refl, arith, bit_or, u32}
use xesual.Base.Bits.{or_split, or_zero}
use xesual.Machine.{Machine}
use xesual.Gdt.Table.{TableField, offset_of}
use xesual.Gdt.Table.Selectors.{syscall_cs}
use xesual.Cpu.Registers.{
  set_star_register, star_register, set_kernel_gs_base, gs_base, kernel_gs_base, set_syscall_rip,
  efer, lstar,
}

one_digit : (d : ℕ) → d < 2 → bit_or d 1 ≡ 1
one_digit zero h = refl
one_digit (suc zero) h = refl
one_digit (suc (suc d)) h = absurd (omega arith)

-- `x | 1` sets the lowest bit.
or_one : (x : ℕ) → bit_or x 1 ≡ x / 2 * 2 + 1
or_one x = ground (arith, or_split 1 (x / 2) 0 (x % 2) 1, or_zero (x / 2), one_digit (x % 2))

-- The calls of `SharedMain`, in its order.
abbrev pub set_registers : (this syscall_handler : ℕ) → Machine → Machine
set_registers this syscall_handler m =
    set_star_register (set_syscall_rip syscall_handler (set_kernel_gs_base this m))

-- After the three calls both bases of `gs` are the address of the processor's state, so that every
-- `swapgs` leads to it; `syscall` enters at the handler in the kernel's code segment, and is
-- enabled, with the other bits of its register as they were.
pub set_registers_lem :
    (this syscall_handler : ℕ) (m : Machine)
    → this < 2 ^ 64
    → syscall_handler < 2 ^ 64
    → m.msr efer < 2 ^ 64
    → let m' = set_registers this syscall_handler m in
      (m'.msr gs_base ≡ this)
      × (m'.msr kernel_gs_base ≡ this)
      × (m'.msr lstar ≡ syscall_handler)
      × (syscall_cs (m'.msr star_register) ≡ offset_of TableField.kernel_code)
      × (m'.msr efer ≡ m.msr efer / 2 * 2 + 1)
unfolding set_star_register set_syscall_rip set_kernel_gs_base
set_registers_lem this syscall_handler m p q r =
    (omega arith, omega arith, omega arith, refl, rw (or_one (u32 (m.msr efer))) (omega arith))
