-- ===== src/Examples/Processors.antt =====
-- Interrupts, locks and the registers of the local APIC.
use xesual.Base.{ℕ, ◌≡◌, ◌≢◌, refl, arith}
use xesual.Machine.{update}
use xesual.Address.{to_physical, to_virtual, to_physical-to_virtual}
use xesual.Smp.{get_apic_base, set_apic_base, get_apic_base-set_apic_base}
use xesual.Spinlock.Contention.{
  inside, trying, System, initial, Reach, booted, later, pick, start, win, lose, mutual_exclusion,
  spinning, interrupt, now, further, spinning-forever,
}
use xesual.Examples.Machines.{shared}

to_physical-to_virtual_example :
    (to_physical 0xffff_8000_0000_0000 (to_virtual 0xffff_8000_0000_0000 0x1000) ≡ 0x1000)
    × (to_virtual 0xffff_8000_0000_0000 (to_physical 0xffff_8000_0000_0000 0x1000) ≡ 0x1000)
to_physical-to_virtual_example =
    to_physical-to_virtual 0xffff_8000_0000_0000 0x1000 (omega arith) (omega arith)

default_base : get_apic_base (set_apic_base 0xfee0_0000 shared) ≡ 0xfee0_0000
default_base = get_apic_base-set_apic_base 0xfee0_0000 shared

-- Processor 1 is inside, and processor 2 tries in vain.
abbrev contended : System
contended = record {
  held = 1;
  pc = update (update (update (update initial.pc 1 trying) 1 inside) 2 trying) 2 trying;
}

contended-Reach : Reach contended
contended-Reach =
    later (later (later (later booted (pick 1 start)) (pick 1 (win refl))) (pick 2 start))
      (pick 2 (lose (omega arith)))

mutual_exclusion_example : ◌≡◌ {A = ℕ} 1 1
mutual_exclusion_example = mutual_exclusion contended-Reach 1 1 refl refl

-- An interrupt on processor 1, whose handler takes the lock, and then another try of processor 2.
abbrev interrupted : System
interrupted = record contended { pc = update contended.pc 1 spinning }

abbrev interrupted_later : System
interrupted_later = record { held = 1; pc = update interrupted.pc 2 trying }

spinning-forever_example :
    (interrupted_later.pc 1 ≡ spinning)
    × (interrupted_later.held ≢ 0)
    × ((j : ℕ) → interrupted_later.pc j ≢ inside)
spinning-forever_example =
    spinning-forever (later contended-Reach (pick 1 interrupt)) 1 refl
      (further now (pick 2 (lose (omega arith))))
