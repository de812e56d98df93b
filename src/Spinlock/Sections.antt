-- ===== src/Spinlock/Sections.antt =====
-- `acquire` and `release` on one processor: what they do to the lock, to the interrupt flag and to
-- the count of `pushCLI`.
use xesual.Base.{ℕ, ◌≡◌, ◌≢◌, ◌∙◌, refl, ap, false, some, arith, ==_ne}
use xesual.Machine.{Machine, Lock, ok, hang}
use xesual.Smp.{lapic_id}
use xesual.Cpu.{this_cpu, note_flags, pop_cli}
use xesual.Cpu.Nesting.{
  Nesting, with_cpu, counted, flag_after, push_cli-at, pop_cli-at, this_cpu_same, this_cpu-with_cpu,
  discounted-counted, flag_back, note_flags-apic_id, note_flags-cli_count, update_here,
}
use xesual.Spinlock.{set_held, acquire, release}

-- The state after `acquire` or `release`: lock `l` at `v`, and the note that `pushCLI` leaves.
abbrev pub switched : ℕ → Lock → ℕ → Machine → Machine
switched i l v m = set_held l v (with_cpu m.interrupts i (note_flags m.interrupts (m.cpus i)) m)

this_cpu-set_held : (l : Lock) (v : ℕ) (m : Machine) → this_cpu (set_held l v m) ≡ this_cpu m
unfolding lapic_id
this_cpu-set_held l v m = this_cpu_same m (set_held l v m) refl refl (λ k. refl)

-- `popCLI` after `pushCLI` and a change of the lock.
leave :
    (i : ℕ) (l : Lock) (v : ℕ) (m : Machine)
    → Nesting i m
    → pop_cli (set_held l v (with_cpu false i (counted m.interrupts (m.cpus i)) m))
      ≡ ok tt (switched i l v m)
leave i l v m n =
    let m' = set_held l v m in
    pop_cli-at false i (counted m.interrupts (m.cpus i)) m' (this_cpu-set_held l v m ∙ n.here)
      (note_flags-apic_id _ _)
    ∙ ap (λ d. ok tt (with_cpu (flag_after false d) i d m'))
        (discounted-counted m.interrupts (m.cpus i) n.room)
    ∙ ap (λ b. ok tt (with_cpu b i (note_flags m.interrupts (m.cpus i)) m'))
        (flag_back m.interrupts (m.cpus i) n.off)

-- `acquire` of a free lock takes it, and runs on with the interrupt flag as it was before.
pub acquire_free :
    (i : ℕ) (l : Lock) (m : Machine)
    → Nesting i m
    → m.held l ≡ 0
    → acquire l m ≡ ok tt (switched i l 1 m)
unfolding acquire
acquire_free i l m n free = rw (push_cli-at i m n.here, free) (leave i l 1 m n)

-- `acquire` of a lock that is held never returns: nobody runs here who could release it.
pub acquire_held :
    (i : ℕ) (l : Lock) (m : Machine) → this_cpu m ≡ some i → m.held l ≢ 0 → acquire l m ≡ hang
unfolding acquire
acquire_held i l m here busy = rw (push_cli-at i m here, ==_ne _ _ busy)

-- `release` frees the lock, with the interrupt flag as it was before.
pub release_lem :
    (i : ℕ) (l : Lock) (m : Machine) → Nesting i m → release l m ≡ ok tt (switched i l 0 m)
unfolding release
release_lem i l m n = rw (push_cli-at i m n.here) (leave i l 0 m n)

-- Between the calls the state of the processor is again as `Nesting` wants it.
pub switched-Nesting :
    (i : ℕ) (l : Lock) (v : ℕ) (m : Machine) → Nesting i m → Nesting i (switched i l v m)
switched-Nesting i l v m n = record {
  here =
      this_cpu-set_held l v (with_cpu m.interrupts i (note_flags m.interrupts (m.cpus i)) m)
      ∙ this_cpu-with_cpu m.interrupts i (note_flags m.interrupts (m.cpus i)) m
          (note_flags-apic_id _ _)
      ∙ n.here;
  room =
      rw (update_here m.cpus i (note_flags m.interrupts (m.cpus i)))
        (omega (arith, n.room, note_flags-cli_count m.interrupts (m.cpus i)));
  off =
      rw (update_here m.cpus i (note_flags m.interrupts (m.cpus i)))
        (λ up. n.off (λ z. up (note_flags-cli_count m.interrupts (m.cpus i) ∙ z)));
}
