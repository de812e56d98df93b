-- ===== src/Processes/Scheduler/Starts.antt =====
-- The scheduler where the first entry of the table is runnable, up to its `Pause`.
use xesual.Base.{
  ℕ, List, suc, ◌≡◌, ◌≢◌, refl, sym, ap, ◌∙◌, arith, Bool, true, none, some, Option, ==_ne,
}
use xesual.Machine.{
  Machine, Lock, CpuState, fault, running, log_lock, table_lock, ok, Cmd, ◌>>◌, update,
}
use xesual.Address.{to_physical}
use xesual.Smp.{lapic_id}
use xesual.Cpu.Nesting.{Nesting, this_cpu_same, update_here}
use xesual.Cpu.{note_flags}
use xesual.Spinlock.{release}
use xesual.Spinlock.Sections.{switched, acquire_free, release_lem, switched-Nesting}
use xesual.Console.{LogLine, found_a_process_to_run, sweeetch}
use xesual.Console.Line.{sent, sent_after, logfn-shown, Nesting-out_bytes}
use xesual.Processes.{
  is_runnable, set_current, run_process, schedule_loop, schedule_rounds, schedule,
  run_process_entry_point,
}

note_flags-current :
    (b : Bool) (c : CpuState) → (note_flags b c).current_process ≡ c.current_process
note_flags-current b c = ground arith

-- The state after a line.
abbrev logged : (i : ℕ) → List ℕ → Machine → Machine
logged i line m =
    switched i log_lock 0
      (record (switched i log_lock 1 m) { out_bytes = sent_after m.out_bytes (sent line) })

logged-Nesting : (i : ℕ) (line : List ℕ) (m : Machine) → Nesting i m → Nesting i (logged i line m)
logged-Nesting i line m n =
    switched-Nesting i log_lock 0
      (record (switched i log_lock 1 m) { out_bytes = sent_after m.out_bytes (sent line) })
      (Nesting-out_bytes i _ _ (switched-Nesting i log_lock 1 m n))

switched-current :
    (i : ℕ) (l : Lock) (v : ℕ) (m : Machine)
    → ((switched i l v m).cpus i).current_process ≡ (m.cpus i).current_process
switched-current i l v m =
    ap (λ c. c.current_process) (update_here m.cpus i (note_flags m.interrupts (m.cpus i)))
    ∙ note_flags-current m.interrupts (m.cpus i)

logged-current :
    (i : ℕ) (line : List ℕ) (m : Machine)
    → ((logged i line m).cpus i).current_process ≡ (m.cpus i).current_process
logged-current i line m =
    switched-current i log_lock 0
      (record (switched i log_lock 1 m) { out_bytes = sent_after m.out_bytes (sent line) })
    ∙ switched-current i log_lock 1 m

-- The state with another process noted.
abbrev noted : (i : ℕ) → Option ℕ → Machine → Machine
noted i p m = record m { cpus = update m.cpus i (record (m.cpus i) { current_process = p }) }

noted-Nesting : (i : ℕ) (p : Option ℕ) (m : Machine) → Nesting i m → Nesting i (noted i p m)
unfolding lapic_id
noted-Nesting i p m n = record {
  here = this_cpu_same m (noted i p m) refl refl (λ k. ground arith) ∙ n.here;
  room = rw (update_here m.cpus i (record (m.cpus i) { current_process = p })) n.room;
  off = rw (update_here m.cpus i (record (m.cpus i) { current_process = p })) n.off;
}

-- The state with the process `p` chosen.
abbrev chosen : (i p : ℕ) → Machine → Machine
chosen i p m = record (noted i (some p) m) {
  cr3 = to_physical m.hhdm_offset (m.processes p).page_table;
  processes = update m.processes p (record (m.processes p) { state = running });
}

chosen-Nesting : (i p : ℕ) (m : Machine) → Nesting i m → Nesting i (chosen i p m)
unfolding lapic_id
chosen-Nesting i p m n =
    let n' = noted-Nesting i (some p) m n in
    record {
      here = this_cpu_same (noted i (some p) m) (chosen i p m) refl refl (λ k. refl) ∙ n'.here;
      room = n'.room;
      off = n'.off;
    }

module _ (printed : LogLine → List ℕ) (pause : Cmd (Unit {0})) where
  abbrev started : (i p : ℕ) → Machine → Machine
  started i p m =
      logged i (printed sweeetch) (chosen i p (logged i (printed found_a_process_to_run) m))

  run_process-started :
      (i p : ℕ) (m : Machine)
      → Nesting i m
      → m.held log_lock ≡ 0
      → run_process printed pause i p m ≡ pause (started i p m)
  unfolding run_process
  run_process-started i p m n unheld =
      let m₁ = logged i (printed found_a_process_to_run) m in
      let n₁ = logged-Nesting i (printed found_a_process_to_run) m n in
      rw
        (
          (logfn-shown i (printed found_a_process_to_run) m n unheld).0,
          (logfn-shown i (printed sweeetch) (chosen i p m₁) (chosen-Nesting i p m₁ n₁) refl).0,
        )
        refl

  -- The state in which the scheduler looks at the table.
  abbrev looking : ℕ → Machine → Machine
  looking i m = switched i table_lock 1 (record (noted i none m) { interrupts = true })

  looking-Nesting :
      (i : ℕ) (m : Machine)
      → Nesting i m
      → (m.cpus i).cli_count ≡ 0
      → Nesting i (record (noted i none m) { interrupts = true })
  unfolding lapic_id
  looking-Nesting i m n none_off =
      let n' = noted-Nesting i none m n in
      record {
        here =
            this_cpu_same (noted i none m) (record (noted i none m) { interrupts = true }) refl refl
              (λ k. refl)
            ∙ n'.here;
        room = n'.room;
        off = λ up. absurd (
            up (
              ap (λ c. c.cli_count)
                (update_here m.cpus i (record (m.cpus i) { current_process = none }))
              ∙ none_off));
      }

  -- The scheduler from its `Pause` on.
  abbrev pub from_pause : (rounds fuel i : ℕ) → Cmd (Unit {0})
  from_pause rounds fuel i =
      (pause >> schedule_loop printed pause fuel i 0)
      >> (release table_lock >> schedule_rounds printed pause rounds (suc fuel) i)

  -- Where the first entry is runnable, `schedule` comes to its `Pause`: the processor's state notes
  -- that process, which is marked as running, with its page tables in `cr3`; another entry `q` is as
  -- it was. Interrupts are on, the lock of the log is free and that of the table is held, until a new
  -- process runs its entry point, which frees it.
  pub schedule-starts :
      (rounds fuel i q : ℕ) (m : Machine)
      → Nesting i m
      → (m.cpus i).cli_count ≡ 0
      → m.held table_lock ≡ 0
      → m.held log_lock ≡ 0
      → is_runnable (m.processes 0).state ≡ true
      → q ≢ 0
      → (m' : Machine) × (schedule printed pause (suc rounds) (suc fuel) m
          ≡ from_pause rounds fuel i m')
        × ((m'.cpus i).current_process ≡ some 0)
        × (m'.processes 0 ≡ record (m.processes 0) { state = running })
        × (m'.processes q ≡ m.processes q)
        × (m'.cr3 ≡ to_physical m.hhdm_offset (m.processes 0).page_table)
        × (m'.held table_lock ≡ 1)
        × (m'.held log_lock ≡ 0)
        × (m'.interrupts ≡ true)
        × (run_process_entry_point m' ≡ ok tt (switched i table_lock 0 m'))
  unfolding run_process_entry_point schedule schedule_rounds schedule_loop
  schedule-starts rounds fuel i q m n none_off unheld quiet ready ne =
      let m₁ : Machine = record (noted i none m) { interrupts = true } in
      let n₁ : Nesting i m₁ = looking-Nesting i m n none_off in
      let m₂ = switched i table_lock 1 m₁ in
      let n₂ = switched-Nesting i table_lock 1 m₁ n₁ in
      let m₃ = logged i (printed found_a_process_to_run) m₂ in
      let n₃ = logged-Nesting i (printed found_a_process_to_run) m₂ n₂ in
      (
        started i 0 m₂,
        ap
              (λ o. elim o [
                | none ↦ fault
                | some j ↦
                    (set_current j none >> schedule_rounds printed pause (suc rounds) (suc fuel) j)
                      m
              ])
              n.here
            ∙ rw
                (acquire_free i table_lock m₁ n₁ unheld, ready, run_process-started i 0 m₂ n₂ quiet)
                refl,
        logged-current i (printed sweeetch) (chosen i 0 m₃)
            ∙ ap (λ c. c.current_process)
                (update_here m₃.cpus i (record (m₃.cpus i) { current_process = some 0 })),
        refl,
        rw (==_ne 0 q (λ e. ne (sym e))) refl,
        refl,
        refl,
        refl,
        refl,
        release_lem i table_lock (started i 0 m₂)
            (logged-Nesting i (printed sweeetch) (chosen i 0 m₃) (chosen-Nesting i 0 m₃ n₃)),
      )
