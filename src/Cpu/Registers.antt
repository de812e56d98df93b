-- ===== src/Cpu/Registers.antt =====
-- The model-specific registers of a processor that `CPUState` sets in
-- Kernel/ProcessManagement.cpp.
pub mod Syscall
use xesual.Base.{ℕ, ◌+◌, ◌*◌, ◌/◌, ◌%◌, ◌^◌, bit_or, u32, ◌>>>◌, ◌<<<◌, update}
use xesual.Machine.{Machine}
use xesual.Smp.{cpu_set_msr, msr_low, msr_high}
use xesual.Gdt.{ring0, ring3}
use xesual.Gdt.Table.{TableField, offset_of}

abbrev pub star_register : ℕ
star_register = 0xc0000081

-- `CPUState::setStarRegister`
unfoldable pub set_star_register : Machine → Machine
unfolding cpu_set_msr
set_star_register m =
    let kernel_selector = bit_or (offset_of TableField.kernel_code) ring0 in
    let user_selector = bit_or (offset_of TableField.user_code32) ring3 in
    cpu_set_msr star_register 0 (u32 (bit_or kernel_selector (user_selector <<< 16))) m

abbrev pub gs_base : ℕ
gs_base = 0xc0000101

abbrev pub kernel_gs_base : ℕ
kernel_gs_base = 0xc0000102

-- The instruction `swapgs`.
abbrev swapgs : Machine → Machine
swapgs m = record m {
  msr = update (update m.msr gs_base (m.msr kernel_gs_base)) kernel_gs_base (m.msr gs_base);
}

-- `CPUState::setKernelGSBase`; `this` is the address of the state.
unfoldable pub set_kernel_gs_base : (this : ℕ) → Machine → Machine
unfolding cpu_set_msr
set_kernel_gs_base base m =
    let m = cpu_set_msr gs_base (u32 base) (u32 (base >>> 32)) m in
    swapgs (cpu_set_msr kernel_gs_base (u32 base) (u32 (base >>> 32)) m)

abbrev pub efer : ℕ
efer = 0xc0000080

abbrev pub lstar : ℕ
lstar = 0xc0000082

-- `CPUState::setSyscallRIP`; the argument is the address of `SyscallHandler`.
unfoldable pub set_syscall_rip : (syscall_handler : ℕ) → Machine → Machine
unfolding cpu_set_msr
set_syscall_rip base m =
    let m = cpu_set_msr efer (bit_or (msr_low m efer) 1) (msr_high m efer) m in
    cpu_set_msr lstar (u32 base) (u32 (base >>> 32)) m
