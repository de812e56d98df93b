-- ===== src/Traps/Panic/Stops.antt =====
-- Whatever the state of the log, a panic never returns.
use xesual.Base.{ℕ, ◌≡◌, ◌⊎◌, inl, inr, refl, ap, ◌∙◌, ℕ_discrete, List}
use xesual.Machine.{Machine, log_lock, ok, hang, Cmd, and_then, ◌>>◌}
use xesual.Cpu.Nesting.{Nesting}
use xesual.Spinlock.Sections.{acquire_held, switched, switched-Nesting}
use xesual.Console.{Why, LogLine, logfn, lock_log}
use xesual.Console.Line.{logfn-shown, Nesting-out_bytes, sent, sent_after}
use xesual.Traps.Registers.{InterruptRegisters}
use xesual.Traps.Panic.{dump_registers, panic}

-- The command ends, with the processor as it was, or never.
pub record Logs (i : ℕ) (c : Cmd (Unit {0})) : Type 0 where
  pub runs :
      (m : Machine)
      → Nesting i m
      → ((m' : Machine) × (c m ≡ ok tt m') × Nesting i m') ⊎ (c m ≡ hang)

Logs-logfn : (i : ℕ) (line : List ℕ) → Logs i (logfn line)
unfolding logfn lock_log
Logs-logfn i line = record {
  runs = λ m n. elim (ℕ_discrete (m.held log_lock) 0) [
    | yes unheld ↦ inl (
      switched i log_lock 0
          (record (switched i log_lock 1 m) { out_bytes = sent_after m.out_bytes (sent line) }),
      (logfn-shown i line m n unheld).0,
      switched-Nesting i log_lock 0 _ (Nesting-out_bytes i _ _ (switched-Nesting i log_lock 1 m n)),
    )
    | no held ↦ inr (rw (acquire_held i log_lock m n.here held) refl)
  ];
}

Logs-then : {i : ℕ} {c d : Cmd (Unit {0})} → Logs i c → Logs i d → Logs i (c >> d)
Logs-then {d = d} s t = record {
  runs = λ m n. elim (s.runs m n) [
    | inl (m', e, n') ↦ elim (t.runs m' n') [
      | inl (m'', e', n'') ↦ inl (m'', ap (λ r. and_then r (λ _. d)) e ∙ e', n'')
      | inr e' ↦ inr (ap (λ r. and_then r (λ _. d)) e ∙ e')
    ]
    | inr e ↦ inr (ap (λ r. and_then r (λ _. d)) e)
  ];
}

-- What never returns, behind lines that are logged.
stops-then :
    {i : ℕ} {c d : Cmd (Unit {0})}
    → Logs i c
    → ((m : Machine) → Nesting i m → d m ≡ hang)
    → (m : Machine) → Nesting i m
    → (c >> d) m ≡ hang
stops-then {d = d} s t m n = elim (s.runs m n) [
  | inl (m', e, n') ↦ ap (λ r. and_then r (λ _. d)) e ∙ t m' n'
  | inr e ↦ ap (λ r. and_then r (λ _. d)) e
]

Logs-dump_registers :
    (printed : LogLine → List ℕ) (i : ℕ) (r : InterruptRegisters)
    → Logs i (dump_registers printed r)
unfolding dump_registers
Logs-dump_registers printed i r = Logs-then (Logs-logfn i _) (
    Logs-then (Logs-logfn i _)
      (Logs-then (Logs-logfn i _) (Logs-then (Logs-logfn i _) (Logs-logfn i _))))

pub panic-hangs :
    (printed : LogLine → List ℕ) (i : ℕ) (why : Why) (r : InterruptRegisters) (m : Machine)
    → Nesting i m
    → panic printed why r m ≡ hang
unfolding panic
panic-hangs printed i why r =
    stops-then (Logs-logfn i _) (stops-then (Logs-dump_registers printed i r) (λ m n. refl))
