-- ===== src/LocalApic.antt =====
-- Kernel/LocalAPIC.cpp: the registers of the local APIC and their first values.
pub mod Vectors
use xesual.Base.{
  ℕ, zero, suc, Bool, ◌+◌, ◌*◌, ◌/◌, ◌^◌, bit_and, bit_or, leb, ◌==◌, if◌then◌else◌, ◌>>>◌,
}
use xesual.Machine.{Machine, ok, out_of_fuel, Cmd, ◌>>=◌, ◌>>◌, when, update}
use xesual.Address.{to_virtual}
use xesual.Smp.{get_apic_base}

-- `LAPICRegisters`: the index of a register, a quarter of its offset.
pub data Register : Type 0 where
  id version task_priority end_of_interrupt spurious_interrupt_vector error_status : Register
  low_interrupt_command high_interrupt_command lvt0_timer lvt_perf_count lvt1_interrupt0 : Register
  lvt2_interrupt1 lvt3_error timer_initial_count timer_divide_configuration : Register

abbrev pub index : Register → ℕ
index id = 0x0020 / 4
index version = 0x0030 / 4
index task_priority = 0x0080 / 4
index end_of_interrupt = 0x00b0 / 4
index spurious_interrupt_vector = 0x00f0 / 4
index error_status = 0x0280 / 4
index low_interrupt_command = 0x0300 / 4
index high_interrupt_command = 0x0310 / 4
index lvt0_timer = 0x0320 / 4
index lvt_perf_count = 0x0340 / 4
index lvt1_interrupt0 = 0x0350 / 4
index lvt2_interrupt1 = 0x0360 / 4
index lvt3_error = 0x0370 / 4
index timer_initial_count = 0x0380 / 4
index timer_divide_configuration = 0x03e0 / 4

abbrev pub svr_enable : ℕ
svr_enable = 0x100

abbrev pub timer_divide_by1 : ℕ
timer_divide_by1 = 0xb

abbrev pub timer_periodic : ℕ
timer_periodic = 0x20000

abbrev pub error_masked : ℕ
error_masked = 0x10000

abbrev pub initialize : ℕ
initialize = 0x500

abbrev pub delivery_status : ℕ
delivery_status = 0x1000

abbrev pub level_triggered : ℕ
level_triggered = 0x8000

abbrev pub broadcast : ℕ
broadcast = 0x80000

abbrev pub irq0 : ℕ
irq0 = 32

abbrev pub irq_timer : ℕ
irq_timer = 0

abbrev pub irq_error : ℕ
irq_error = 19

abbrev pub irq_spurious : ℕ
irq_spurious = 31

-- The register at an index of the array `lapic`.
abbrev pub register : Machine → Register → ℕ
register m r = m.mmio (m.lapic + 4 * index r)

-- The read behind the write has no effect of its own.
unfoldable pub write_lapic : Register → ℕ → Cmd (Unit {0})
write_lapic r value m = ok tt (record m { mmio = update m.mmio (m.lapic + 4 * index r) value })

unfoldable pub set_lapic_address : Cmd (Unit {0})
set_lapic_address m = ok tt (record m { lapic = to_virtual m.hhdm_offset (get_apic_base m) })

-- `if (((lapic[Version] >> 16) & 0xFF) >= 4)`
unfoldable pub mask_perf_count : Cmd (Unit {0})
unfolding write_lapic
mask_perf_count m =
    when (leb 4 (bit_and (register m version >>> 16) 0xff))
      (write_lapic lvt_perf_count error_masked) m

-- What is read in the register of the command: the device itself sets the bit while it delivers the
-- command, and whatever was written there has no effect on it.
abbrev pub shown_command : Bool → ℕ → ℕ
shown_command is_pending value =
    bit_or (bit_and value 0xffffefff) (if is_pending then delivery_status else 0)

-- `while (lapic[LowInterruptCommand] & DeliveryStatus);`, on fuel: `pending k` says whether the device
-- is delivering the command at the read `k` from here on.
unfoldable pub await_delivery : (fuel : ℕ) → (pending : ℕ → Bool) → Cmd (Unit {0})
await_delivery zero pending m = out_of_fuel
await_delivery (suc fuel) pending m =
    let rest = await_delivery fuel (λ k. pending (suc k)) m in
    if bit_and (shown_command (pending 0) (register m low_interrupt_command)) delivery_status == 0
    then ok tt m
    else rest

unfoldable pub init_lapic : (fuel : ℕ) → (pending : ℕ → Bool) → Cmd (Unit {0})
unfolding write_lapic mask_perf_count await_delivery
init_lapic fuel pending = do
  write_lapic spurious_interrupt_vector (bit_or svr_enable (irq0 + irq_spurious))
  write_lapic timer_divide_configuration timer_divide_by1
  write_lapic lvt0_timer (bit_or timer_periodic (irq0 + irq_timer))
  write_lapic timer_initial_count 10000000
  write_lapic lvt1_interrupt0 error_masked
  write_lapic lvt2_interrupt1 error_masked
  mask_perf_count
  write_lapic lvt3_error (irq0 + irq_error)
  write_lapic error_status 0
  write_lapic error_status 0
  write_lapic end_of_interrupt 0
  write_lapic high_interrupt_command 0
  write_lapic low_interrupt_command (bit_or (bit_or broadcast initialize) level_triggered)
  await_delivery fuel pending
  write_lapic task_priority 0

unfoldable pub acknowledge_interrupt : Cmd (Unit {0})
unfolding write_lapic
acknowledge_interrupt = write_lapic end_of_interrupt 0
