-- ===== src/Processes/Exit.antt =====
-- The end of a process, up to the scheduler.
use xesual.Base.{
  ℕ, ◌∷◌, ◌+◌, ◌*◌, ◌^◌, ◌<◌, ◌≤◌, ◌≡◌, ◌≢◌, ==_ne, sym, refl, ap, ◌∙◌, Option, some, length,
}
use xesual.Machine.{Machine, unused, table_lock, ok, Cmd}
use xesual.Machine.Keeps.{Keeps, Keeps-bind, Keeps-then, Keeps-get, kept}
use xesual.Address.{page_size}
use xesual.Cpu.{this_cpu}
use xesual.Cpu.Nesting.{update_here}
use xesual.Spinlock.Frame.{Same, current_process-Ignored, Keeps-acquire, Keeps-release}
use xesual.PhysicalMemory.{free_page}
use xesual.PhysicalMemory.Chunks.{Cells, Ordered, place, Fits}
use xesual.PhysicalMemory.Access.{Holds}
use xesual.PhysicalMemory.Frame.{Same-Apart, Keeps-free_pages}
use xesual.Processes.{
  set_state, current_process, free_process, enter_scheduler_from_process, exit_current_process,
}
use xesual.Processes.Fresh.{Section}
use xesual.Processes.Reuse.{free_process-given_up}

-- The processor goes on with the process that is given up.
Keeps-free_process :
    (i fuel p : ℕ) (o : Option ℕ)
    → Keeps (Same (λ m. (m.cpus i).current_process) o) (free_process fuel p)
unfolding free_process free_page
Keeps-free_process i fuel p o =
    let ignored = current_process-Ignored i in
    Keeps-then (Keeps-acquire _ o ignored table_lock) (
      Keeps-then {c = set_state p unused} (record { runs = λ m h. h })
        (Keeps-bind Keeps-get λ m.
          Keeps-then
            (Keeps-free_pages _ (Same-Apart _ ignored o) fuel (m.processes p).kernel_stack 1)
            (Keeps-release _ o ignored table_lock)))

current_process-at :
    (i p : ℕ) (m : Machine)
    → this_cpu m ≡ some i
    → (m.cpus i).current_process ≡ some p
    → current_process m ≡ ok p m
current_process-at i p m here e = rw (current_process, here, e) refl

-- What is left of the state `m` when the process `p` of processor `i` has ended: its page is among
-- the free ones, its entry is unused and the others are as they were, the lock of the table is free,
-- and the processor still notes the process.
pub record Ended (i p : ℕ) (xs : Cells) (m m' : Machine) : Type 0 where
  pub pages : Holds m' (place (m.processes p).kernel_stack 1 xs)
  pub unused_entry : (m'.processes p).state ≡ unused
  pub others : (q : ℕ) → q ≢ p → m'.processes q ≡ m.processes q
  pub section_left : Section i 0 m'
  pub noted : (m'.cpus i).current_process ≡ some p

-- `exitCurrentProcess` comes to `Pause`, whatever that does, in such a state.
pub exit_current_process-Ended :
    (fuel i p a k lo : ℕ) (xs : Cells) (m : Machine)
    → Section i 0 m
    → (m.cpus i).current_process ≡ some p
    → Holds m ((a, k) ∷ xs)
    → 24 ≤ lo
    → Ordered lo ((a, k) ∷ xs)
    → a ≤ (m.processes p).kernel_stack
    → Fits (m.processes p).kernel_stack 1 (a + page_size * k) xs
    → (m.processes p).kernel_stack + page_size < 2 ^ 64
    → length ((a, k) ∷ xs) < fuel
    → (m' : Machine) × ((pause : Cmd (Unit {0})) → exit_current_process pause fuel m ≡ pause m')
      × Ended i p ((a, k) ∷ xs) m m'
unfolding exit_current_process enter_scheduler_from_process
exit_current_process-Ended fuel i p a k lo xs m s e holds room o below fits small enough =
    let (m', runs, holds', same, s') =
      free_process-given_up fuel i p a k lo xs m s holds room o below fits small enough in
    let e' = kept (Keeps-free_process i fuel p (some p)) m tt m' e runs in
    (
      m',
      (λ pause.
          rw
            (
              current_process-at i p m s.nesting.here e,
              runs,
              current_process-at i p m' s'.nesting.here e',
            )
            refl),
      record {
        pages = holds';
        unused_entry = ap (λ t. (t p).state) same ∙ ap (λ c. c.state) (update_here m.processes p _);
        others = λ q ne. ap (λ t. t q) same ∙ rw (==_ne p q (λ z. ne (sym z))) refl;
        section_left = s';
        noted = e';
      },
    )
