-- ===== src/Cpu/Nesting.antt =====
-- `pushCLI` and `popCLI` bracket a stretch that runs with interrupts off.
use xesual.Base.{
  ℕ, zero, suc, ◌+◌, ◌-◌, ◌^◌, ◌<◌, ◌≡◌, ◌≢◌, ◌∙◌, refl, ap, fun_ext, Bool, true, false, some,
  arith, ◌&&◌, ◌==◌, if◌then◌else◌, ==_refl, u32,
}
use xesual.Machine.{Machine, CpuState, ok, ◌>>◌, skip, update}
use xesual.Smp.{lapic_id}
use xesual.Cpu.{
  find_cpu, this_cpu, modify_this_cpu, read_this_cpu, set_interrupts, note_flags, push_cli, pop_cli,
}

-- `thisCPU` reads the device registers and the ids of the processors, and nothing else.
find_cpu_same :
    (rounds i : ℕ) (m m' : Machine)
    → lapic_id m' ≡ lapic_id m
    → ((k : ℕ) → (m'.cpus k).apic_id ≡ (m.cpus k).apic_id)
    → find_cpu rounds i m' ≡ find_cpu rounds i m
unfolding find_cpu
find_cpu_same zero i m m' same ids = refl
find_cpu_same (suc rounds) i m m' same ids =
    rw (same, ids i, find_cpu_same rounds (i + 1) m m' same ids)

pub this_cpu_same :
    (m m' : Machine)
    → lapic_id m' ≡ lapic_id m
    → m'.cpu_count ≡ m.cpu_count
    → ((k : ℕ) → (m'.cpus k).apic_id ≡ (m.cpus k).apic_id)
    → this_cpu m' ≡ this_cpu m
unfolding this_cpu
this_cpu_same m m' same count ids =
    ap (λ n. find_cpu n 0 m') count ∙ find_cpu_same m.cpu_count 0 m m' same ids

-- The state with processor `i` changed to `c`, and the interrupt flag to `b`.
abbrev pub with_cpu : Bool → ℕ → CpuState → Machine → Machine
with_cpu b i c m = record m { interrupts = b; cpus = update m.cpus i c }

pub this_cpu-with_cpu :
    (b : Bool) (i : ℕ) (c : CpuState) (m : Machine)
    → c.apic_id ≡ (m.cpus i).apic_id
    → this_cpu (with_cpu b i c m) ≡ this_cpu m
unfolding this_cpu lapic_id
this_cpu-with_cpu b i c m e =
    find_cpu_same m.cpu_count 0 m (with_cpu b i c m) refl (λ k. ground arith)

pub update-update {ℓ} :
    {A : Type ℓ} (f : ℕ → A) (p : ℕ) (v w : A) → update (update f p v) p w ≡ update f p w
update-update f p v w = fun_ext λ q. ground arith

pub update_here {ℓ} : {A : Type ℓ} (f : ℕ → A) (p : ℕ) (v : A) → update f p v p ≡ v
update_here f p v = rw (==_refl p)

-- A change through `thisCPU`, at processor `i`.
modify_first :
    (b : Bool) (i : ℕ) (f : CpuState → CpuState) (m : Machine)
    → this_cpu m ≡ some i
    → modify_this_cpu f (record m { interrupts = b }) ≡ ok tt (with_cpu b i (f (m.cpus i)) m)
unfolding modify_this_cpu this_cpu lapic_id
modify_first b i f m here = rw (
  find_cpu_same m.cpu_count 0 m (record m { interrupts = b }) refl (λ k. refl) ∙ here,
  modify_this_cpu,
)

modify_again :
    (b : Bool) (i : ℕ) (c : CpuState) (f : CpuState → CpuState) (m : Machine)
    → this_cpu m ≡ some i
    → c.apic_id ≡ (m.cpus i).apic_id
    → modify_this_cpu f (with_cpu b i c m) ≡ ok tt (with_cpu b i (f c) m)
unfolding modify_this_cpu
modify_again b i c f m here e = rw (
  this_cpu-with_cpu b i c m e ∙ here,
  modify_this_cpu,
  update_here m.cpus i c,
  update-update m.cpus i c (f c),
)

read_again :
    (b : Bool) (i : ℕ) (c : CpuState) (m : Machine)
    → this_cpu m ≡ some i
    → c.apic_id ≡ (m.cpus i).apic_id
    → read_this_cpu (with_cpu b i c m) ≡ ok c (with_cpu b i c m)
unfolding read_this_cpu
read_again b i c m here e =
    rw (this_cpu-with_cpu b i c m e ∙ here, read_this_cpu, update_here m.cpus i c)

pub note_flags-apic_id : (b : Bool) (c : CpuState) → (note_flags b c).apic_id ≡ c.apic_id
note_flags-apic_id b c = ground arith

pub note_flags-current_process :
    (b : Bool) (c : CpuState) → (note_flags b c).current_process ≡ c.current_process
note_flags-current_process b c = ground arith

pub note_flags-cli_count : (b : Bool) (c : CpuState) → (note_flags b c).cli_count ≡ c.cli_count
note_flags-cli_count b c = ground arith

abbrev pub counted : Bool → CpuState → CpuState
counted flags c = let c' = note_flags flags c in record c' { cli_count = u32 (c'.cli_count + 1) }

-- `pushCLI` turns interrupts off, and counts one level more; the outermost level notes whether
-- they were on.
pub push_cli-at :
    (i : ℕ) (m : Machine)
    → this_cpu m ≡ some i
    → push_cli m ≡ ok tt (with_cpu false i (counted m.interrupts (m.cpus i)) m)
unfolding push_cli
push_cli-at i m here = rw (modify_first false i (note_flags m.interrupts) m here) (
    modify_again false i (note_flags m.interrupts (m.cpus i))
      (λ c. record c { cli_count = u32 (c.cli_count + 1) }) m here (note_flags-apic_id _ _))

-- What `popCLI` leaves of the processor, and of the interrupt flag.
abbrev pub discounted : CpuState → CpuState
discounted c = record c { cli_count = u32 (c.cli_count + 2 ^ 32 - 1) }

abbrev pub flag_after : Bool → CpuState → Bool
flag_after b c = if c.cli_count == 0 && c.were_interrupts_enabled then true else b

enable_if :
    (t b : Bool) (i : ℕ) (c : CpuState) (m : Machine)
    → (if t then set_interrupts true else skip) (with_cpu b i c m)
      ≡ ok tt (with_cpu (if t then true else b) i c m)
enable_if true b i c m = refl
enable_if false b i c m = refl

-- `popCLI` in a state whose processor `i` is `c`.
pub pop_cli-at :
    (b : Bool) (i : ℕ) (c : CpuState) (m : Machine)
    → this_cpu m ≡ some i
    → c.apic_id ≡ (m.cpus i).apic_id
    → pop_cli (with_cpu b i c m) ≡ ok tt (with_cpu (flag_after b (discounted c)) i (discounted c) m)
unfolding pop_cli
pop_cli-at b i c m here e =
    rw (modify_again b i c discounted m here e, read_again b i (discounted c) m here e)
      (enable_if _ b i (discounted c) m)

-- What holds of the executing processor `i` between its calls of `pushCLI` and `popCLI`.
pub record Nesting (i : ℕ) (m : Machine) : Type 0 where
  pub here : this_cpu m ≡ some i
  pub room : (m.cpus i).cli_count + 1 < 2 ^ 32
  pub off : (m.cpus i).cli_count ≢ 0 → m.interrupts ≡ false

pub discounted-counted :
    (b : Bool) (c : CpuState) → c.cli_count + 1 < 2 ^ 32 → discounted (counted b c) ≡ note_flags b c
discounted-counted b c room = ground arith

pub flag_back :
    (b : Bool) (c : CpuState)
    → (c.cli_count ≢ 0 → b ≡ false)
    → flag_after false (note_flags b c) ≡ b
flag_back b c off = ground arith

-- `popCLI` right after `pushCLI` gives the interrupt flag and the count back, at every depth of
-- nesting; only the note of the outermost level remains.
pub pop_cli-push_cli :
    (i : ℕ) (m : Machine)
    → Nesting i m
    → (push_cli >> pop_cli) m
      ≡ ok tt (with_cpu m.interrupts i (note_flags m.interrupts (m.cpus i)) m)
pop_cli-push_cli i m n =
    let c = counted m.interrupts (m.cpus i) in
    rw (push_cli-at i m n.here) (
      pop_cli-at false i c m n.here (note_flags-apic_id _ _)
      ∙ ap (λ d. ok tt (with_cpu (flag_after false d) i d m))
          (discounted-counted m.interrupts (m.cpus i) n.room)
      ∙ ap (λ b. ok tt (with_cpu b i (note_flags m.interrupts (m.cpus i)) m))
          (flag_back m.interrupts (m.cpus i) n.off))
