-- ===== src/Console/Line.antt =====
-- The bytes of a line at the serial port, and the line that they stand for.
use xesual.Base.{
  ℕ, ◌≡◌, refl, ap, sym, ◌∙◌, arith, Bool, false, ◌&&◌, List, [], ◌∷◌, ◌==◌, ==_iff, if◌then◌else◌,
  Bool-cases, inl, inr,
}
use mathlib.Core.Path.{subst}
use xesual.Machine.{Machine, log_lock, ok}
use xesual.Cpu.Nesting.{Nesting, this_cpu_same}
use xesual.Spinlock.Sections.{switched, acquire_free, release_lem, switched-Nesting}
use xesual.Smp.{lapic_id}
use xesual.Console.{
  serial_port, carriage_return, new_line, outb, put_char, put_all, logfn, lock_log, unlock_log,
}

-- The bytes that go out for a line.
abbrev pub sent : List ℕ → List ℕ
sent [] = []
sent (c ∷ cs) = if c == new_line then carriage_return ∷ c ∷ sent cs else c ∷ sent cs

-- What a terminal that drops the carriage return in front of a line feed shows.
abbrev pub starts_line : List ℕ → Bool
starts_line [] = false
starts_line (c ∷ cs) = c == new_line

abbrev pub shown : List ℕ → List ℕ
shown [] = []
shown (c ∷ cs) =
    let rest = shown cs in if (c == carriage_return) && starts_line cs then rest else c ∷ rest

starts_line-sent : (line : List ℕ) → starts_line (sent line) ≡ false
starts_line-sent [] = refl
starts_line-sent (c ∷ cs) = ground arith

shown_other :
    (c : ℕ) (bytes cs : List ℕ)
    → starts_line bytes ≡ false
    → shown bytes ≡ cs
    → shown (c ∷ bytes) ≡ c ∷ cs
shown_other c bytes cs e ih = ground arith

-- The terminal shows the line as it was, whatever its characters.
pub shown-sent : (line : List ℕ) → shown (sent line) ≡ line
shown-sent [] = refl
shown-sent (c ∷ cs) = elim (Bool-cases (c == new_line)) [
  | inl e ↦
      subst (λ d. shown (sent (d ∷ cs)) ≡ d ∷ cs) (sym ((==_iff c new_line).0 e))
        (ap (λ t. new_line ∷ t) (shown-sent cs))
  | inr e ↦ rw e (shown_other c (sent cs) cs (starts_line-sent cs) (shown-sent cs))
]

pub Nesting-out_bytes :
    (i : ℕ) (out : List (ℕ × ℕ)) (m : Machine)
    → Nesting i m
    → Nesting i (record m { out_bytes = out })
unfolding lapic_id
Nesting-out_bytes i out m n = record {
  here = this_cpu_same m (record m { out_bytes = out }) refl refl (λ k. refl) ∙ n.here;
  room = n.room;
  off = n.off;
}

-- The bytes behind those that have gone out already; the last one stands in front.
abbrev pub sent_after : List (ℕ × ℕ) → List ℕ → List (ℕ × ℕ)
sent_after out [] = out
sent_after out (c ∷ cs) = sent_after ((serial_port, c) ∷ out) cs

put_all-sent :
    (line : List ℕ) (m : Machine)
    → put_all line m ≡ ok tt (record m { out_bytes = sent_after m.out_bytes (sent line) })
unfolding put_all put_char outb
put_all-sent [] m = refl
put_all-sent (c ∷ cs) m = elim (Bool-cases (c == new_line)) [
  | inl e ↦ rw e (
      put_all-sent cs
        (record m { out_bytes = (serial_port, c) ∷ (serial_port, carriage_return) ∷ m.out_bytes }))
  | inr e ↦ rw e (put_all-sent cs (record m { out_bytes = (serial_port, c) ∷ m.out_bytes }))
]

-- `logfn` with its lock free sends the line, of which a terminal shows just these characters, and
-- nothing else; the lock is free again, with the interrupt flag as it was.
pub logfn-shown :
    (i : ℕ) (line : List ℕ) (m : Machine)
    → Nesting i m
    → m.held log_lock ≡ 0
    → let m' =
        switched i log_lock 0
          (record (switched i log_lock 1 m) { out_bytes = sent_after m.out_bytes (sent line) }) in
      (logfn line m ≡ ok tt m') × (shown (sent line) ≡ line)
unfolding logfn lock_log unlock_log
logfn-shown i line m n unheld = (
  rw
      (
        acquire_free i log_lock m n unheld,
        put_all-sent line (switched i log_lock 1 m),
        release_lem i log_lock
            (record (switched i log_lock 1 m) { out_bytes = sent_after m.out_bytes (sent line) })
            (Nesting-out_bytes i _ _ (switched-Nesting i log_lock 1 m n)),
      )
      refl,
  shown-sent line,
)
