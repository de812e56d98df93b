-- ===== src/LocalApic/Vectors.antt =====
-- The interrupts that the local APIC is set up to raise, and their gates.
use xesual.Base.{
  ℕ, zero, suc, ◌<◌, ap, if◌then◌else◌, ◌+◌, ◌%◌, ◌^◌, ◌≡◌, refl, arith, none, some, inl, inr, Bool,
  true, false, Bool-cases, leb, bit_and, ◌>>>◌, ◌==◌,
}
use xesual.Machine.{Machine, Run, ok, update, and_then}
use xesual.LocalApic.{
  Register, register, write_lapic, mask_perf_count, await_delivery, init_lapic, version, lvt0_timer,
  low_interrupt_command, shown_command, delivery_status, lvt3_error, spurious_interrupt_vector,
  task_priority,
}
use xesual.Traps.{irq}
use xesual.Traps.Vectors.{stub_of}

-- The vector is the low byte of a register of the local vector table.
abbrev pub vector_in : Machine → Register → ℕ
vector_in m r = register m r % 2 ^ 8

-- Offsets are compared as the registers are.
same_base : (l a b : ℕ) → ((l + a) == (l + b)) ≡ (a == b)
same_base l a b = ground arith

-- The registers after `initLAPIC`, with or without the register for the performance counters.
abbrev first_writes : (ℕ → ℕ) → ℕ → ℕ → ℕ
first_writes f l =
    update
      (update
        (update (update (update (update (f) (l + 0xf0) 0x13f) (l + 0x3e0) 0xb) (l + 0x320) 0x20020)
          (l + 0x380) 10000000)
        (l + 0x350) 0x10000)
      (l + 0x360) 0x10000

abbrev last_writes : (ℕ → ℕ) → ℕ → ℕ → ℕ
last_writes f l =
    update
      (update
        (update (update (update (update (f) (l + 0x370) 51) (l + 0x280) 0) (l + 0x280) 0) (l + 0xb0)
          0)
        (l + 0x310) 0)
      (l + 0x300) 0x88500

abbrev masked : Bool → (ℕ → ℕ) → ℕ → ℕ → ℕ
masked true f l = update f (l + 0x340) 0x10000
masked false f l = f

-- When the command has been given, and when it has been delivered.
abbrev awaiting : Bool → Machine → Machine
awaiting b m = record m {
  mmio = last_writes (masked b (first_writes m.mmio m.lapic) m.lapic) m.lapic;
}

abbrev programmed : Bool → Machine → Machine
programmed b m = record m { mmio = update (awaiting b m).mmio (m.lapic + 0x80) 0 }

-- Whatever is read before, the loop ends at a read that does not show the bit.
ends_at :
    (b : Bool) (m : Machine) (rest : Run (Unit {0}))
    → rest ≡ ok tt m
    → (if b then ok tt m else rest) ≡ ok tt m
ends_at true m rest e = refl
ends_at false m rest e = e

await_delivery-ends :
    (n fuel : ℕ) (pending : ℕ → Bool) (m : Machine)
    → register m low_interrupt_command ≡ 0x88500
    → pending n ≡ false
    → n < fuel
    → await_delivery fuel pending m ≡ ok tt m
unfolding await_delivery
await_delivery-ends n zero pending m v e h = absurd (omega arith)
await_delivery-ends zero (suc fuel) pending m v e h = rw (e, v) refl
await_delivery-ends (suc n) (suc fuel) pending m v e h =
    ends_at
      (bit_and (shown_command (pending 0) (register m low_interrupt_command)) delivery_status == 0)
      m (await_delivery fuel (λ k. pending (suc k)) m)
      (await_delivery-ends n fuel (λ k. pending (suc k)) m v e (omega arith))

-- `initLAPIC`, where the command that it waits for is delivered at the read `n`, ends with fuel for
-- the reads up to that one. The timer then raises a vector with a gate, that of the legacy interrupt
-- 0; the vectors for errors and for spurious interrupts have no gate.
pub init_lapic-vectors :
    (n fuel : ℕ) (pending : ℕ → Bool) (m : Machine)
    → pending n ≡ false
    → n < fuel
    → (m' : Machine) × (init_lapic fuel pending m ≡ ok tt m')
      × (stub_of (vector_in m' lvt0_timer) ≡ some (irq 0))
      × (stub_of (vector_in m' lvt3_error) ≡ none)
      × (stub_of (vector_in m' spurious_interrupt_vector) ≡ none)
      × (register m' task_priority ≡ 0)
unfolding init_lapic write_lapic mask_perf_count
init_lapic-vectors n fuel pending m h few =
    let awaited = λ (b : Bool).
      ap (λ r. and_then r (λ _. write_lapic task_priority 0))
        (await_delivery-ends n fuel pending (awaiting b m) (simp same_base refl) h few) in
    elim (Bool-cases (leb 4 (bit_and (register m version >>> 16) 0xff))) [
      | inl e ↦ (
        programmed true m,
        simp (same_base, e) (awaited true),
        simp same_base refl,
        simp same_base refl,
        simp same_base refl,
        simp same_base refl,
      )
      | inr e ↦ (
        programmed false m,
        simp (same_base, e) (awaited false),
        simp same_base refl,
        simp same_base refl,
        simp same_base refl,
        simp same_base refl,
      )
    ]
