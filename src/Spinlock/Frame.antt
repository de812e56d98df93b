-- ===== src/Spinlock/Frame.antt =====
-- What a critical section leaves alone.
use xesual.Base.{
  ℕ, ◌+◌, ◌-◌, ◌^◌, ◌≡◌, refl, ◌∙◌, arith, Bool, true, false, none, some, ◌&&◌, ◌==◌, u32,
}
use xesual.Machine.{Machine, Lock, CpuState, ok, fault, hang, update}
use xesual.Machine.Keeps.{
  After, Keeps, Keeps-bind, Keeps-then, Keeps-pure, Keeps-if, Keeps-get, After-if,
}
use xesual.Cpu.{
  this_cpu, modify_this_cpu, read_this_cpu, note_flags, push_cli, pop_cli, set_interrupts,
}
use xesual.Smp.{lapic_id}
use xesual.Cpu.Nesting.{note_flags-apic_id, note_flags-current_process, this_cpu_same}
use xesual.Spinlock.{set_held, test_and_set_loop, acquire, release, clear_held}

abbrev pub Same {ℓ} : {A : Type ℓ} → (Machine → A) → A → Machine → Type ℓ
Same part p m = part m ≡ p

-- A part of the state that has neither memory nor the locks in it, nor what `pushCLI` changes.
pub record Ignored {ℓ} {P : Type ℓ} (part : Machine → P) : Type ℓ where
  pub memory : (m : Machine) (f : ℕ → ℕ) → part (record m { mem = f }) ≡ part m
  pub list : (m : Machine) (p : ℕ) → part (record m { page_list = p }) ≡ part m
  pub locks : (m : Machine) (h : Lock → ℕ) → part (record m { held = h }) ≡ part m
  pub flag : (m : Machine) (b : Bool) → part (record m { interrupts = b }) ≡ part m
  pub counts :
      (m : Machine) (i : ℕ) (f : CpuState → CpuState)
      → ((c : CpuState) → (f c).apic_id ≡ c.apic_id)
      → ((c : CpuState) → (f c).current_process ≡ c.current_process)
      → part (record m { cpus = update m.cpus i (f (m.cpus i)) }) ≡ part m

-- Which processor runs, and where the higher half lies.
pub hhdm_offset-Ignored : Ignored (λ m. m.hhdm_offset)
hhdm_offset-Ignored = record {
  memory = λ m f. refl;
  list = λ m p. refl;
  locks = λ m h. refl;
  flag = λ m b. refl;
  counts = λ m i f s t. refl;
}

pub cpu_count-Ignored : Ignored (λ m. m.cpu_count)
cpu_count-Ignored = record {
  memory = λ m f. refl;
  list = λ m p. refl;
  locks = λ m h. refl;
  flag = λ m b. refl;
  counts = λ m i f s t. refl;
}

pub lapic_id-Ignored : Ignored lapic_id
unfolding lapic_id
lapic_id-Ignored = record {
  memory = λ m f. refl;
  list = λ m p. refl;
  locks = λ m h. refl;
  flag = λ m b. refl;
  counts = λ m i f s t. refl;
}

pub this_cpu-Ignored : Ignored this_cpu
unfolding lapic_id
this_cpu-Ignored = record {
  memory = λ m f. this_cpu_same m (record m { mem = f }) refl refl (λ k. refl);
  list = λ m p. this_cpu_same m (record m { page_list = p }) refl refl (λ k. refl);
  locks = λ m h. this_cpu_same m (record m { held = h }) refl refl (λ k. refl);
  flag = λ m b. this_cpu_same m (record m { interrupts = b }) refl refl (λ k. refl);
  counts = λ m i f s t.
      this_cpu_same m (record m { cpus = update m.cpus i (f (m.cpus i)) }) refl refl
        (λ k. ground (arith, s (m.cpus i)));
}

-- The process that a processor runs.
pub current_process-Ignored : (i : ℕ) → Ignored (λ m. (m.cpus i).current_process)
current_process-Ignored i = record {
  memory = λ m f. refl;
  list = λ m p. refl;
  locks = λ m h. refl;
  flag = λ m b. refl;
  counts = λ m j f s t. ground (arith, t (m.cpus j));
}

module _ {ℓ} {A : Type ℓ} (part : Machine → A) (p : A) (ignored : Ignored part) where
  Keeps-modify_this_cpu :
      (f : CpuState → CpuState)
      → ((c : CpuState) → (f c).apic_id ≡ c.apic_id)
      → ((c : CpuState) → (f c).current_process ≡ c.current_process)
      → Keeps (Same part p) (modify_this_cpu f)
  unfolding modify_this_cpu
  Keeps-modify_this_cpu f same runs_same = record {
    runs = λ m h.
        elim (this_cpu m)
          as (λ o. After (Same part p) (elim o [
            | none ↦ fault
            | some i ↦ ok tt (record m { cpus = update m.cpus i (f (m.cpus i)) })
          ])) [ none ↦ tt | some i ↦ ignored.counts m i f same runs_same ∙ h ];
  }

  Keeps-read_this_cpu : Keeps (Same part p) read_this_cpu
  unfolding read_this_cpu
  Keeps-read_this_cpu = record {
    runs = λ m h.
        elim (this_cpu m)
          as (λ o. After (Same part p) (elim o [ none ↦ fault | some i ↦ ok (m.cpus i) m ])) [
            | none ↦ tt
            | some i ↦ h
          ];
  }

  Keeps-set_interrupts : (b : Bool) → Keeps (Same part p) (set_interrupts b)
  Keeps-set_interrupts b = record { runs = λ m h. ignored.flag m b ∙ h }

  Keeps-push_cli : Keeps (Same part p) push_cli
  unfolding push_cli
  Keeps-push_cli = Keeps-bind Keeps-get λ m. Keeps-then (Keeps-set_interrupts false) (
      Keeps-then
        (Keeps-modify_this_cpu (note_flags m.interrupts) (note_flags-apic_id m.interrupts)
          (note_flags-current_process m.interrupts))
        (Keeps-modify_this_cpu (λ c. record c { cli_count = u32 (c.cli_count + 1) }) (λ c. refl)
          (λ c. refl)))

  Keeps-pop_cli : Keeps (Same part p) pop_cli
  unfolding pop_cli
  Keeps-pop_cli =
      Keeps-then
        (Keeps-modify_this_cpu (λ c. record c { cli_count = u32 (c.cli_count + 2 ^ 32 - 1) })
          (λ c. refl) (λ c. refl))
        (Keeps-bind Keeps-read_this_cpu λ c.
          Keeps-if (c.cli_count == 0 && c.were_interrupts_enabled) (Keeps-set_interrupts true)
            (Keeps-pure tt))

  Keeps-test_and_set_loop : (l : Lock) → Keeps (Same part p) (test_and_set_loop l)
  unfolding test_and_set_loop
  Keeps-test_and_set_loop l = record {
    runs = λ m h.
        After-if (Same part p) (m.held l == 0) (ok tt (set_held l 1 m)) hang (ignored.locks m _ ∙ h)
          tt;
  }

  pub Keeps-acquire : (l : Lock) → Keeps (Same part p) (acquire l)
  unfolding acquire
  Keeps-acquire l = Keeps-then Keeps-push_cli (Keeps-then (Keeps-test_and_set_loop l) Keeps-pop_cli)

  Keeps-clear_held : (l : Lock) → Keeps (Same part p) (clear_held l)
  Keeps-clear_held l = record { runs = λ m h. ignored.locks m (set_held l 0 m).held ∙ h }

  pub Keeps-release : (l : Lock) → Keeps (Same part p) (release l)
  unfolding release
  Keeps-release l = Keeps-then Keeps-push_cli (Keeps-then (Keeps-clear_held l) Keeps-pop_cli)
