-- ===== src/Processes/Reuse.antt =====
-- `freeProcess`, and what `allocateProcess` finds after it.
use xesual.Base.{
  ℕ, zero, suc, ◌∷◌, ◌+◌, ◌*◌, ◌^◌, ◌<◌, ◌≤◌, ◌≡◌, ◌≢◌, refl, sym, ap, ◌∙◌, inr, arith, true, false,
  some, ==_ne, ==_refl, ℕ_discrete, length,
}
use mathlib.Core.Path.{subst}
use xesual.Machine.{Machine, ProcessInfo, unused, table_lock, ok, update}
use xesual.Machine.Keeps.{kept}
use xesual.Address.{page_size}
use xesual.Cpu.Nesting.{Nesting, update_here}
use xesual.Spinlock.Sections.{switched, acquire_free, release_lem, switched-Nesting}
use xesual.PhysicalMemory.{free_page}
use xesual.PhysicalMemory.Chunks.{Cells, Ordered, place, Fits}
use xesual.PhysicalMemory.Access.{Holds}
use xesual.PhysicalMemory.Free.{free_pages-place}
use xesual.PhysicalMemory.Frame.{Keeps-free_pages, free_pages-same}
use xesual.Processes.{process_count, is_unused, find_unused, free_process}
use xesual.Processes.Fresh.{Section, Section-Apart, Nesting-memory, processes-Ignored}

-- The loop of `allocateProcess` finds the entry that no unused one stands in front of.
find_unused-at :
    (count j p : ℕ) (table : ℕ → ProcessInfo)
    → j ≤ p
    → p < j + count
    → ((q : ℕ) → q < p → is_unused (table q).state ≡ false)
    → is_unused (table p).state ≡ true
    → find_unused count j table ≡ some p
unfolding find_unused
find_unused-at zero j p table a b used u = absurd (omega arith)
find_unused-at (suc count) j p table a b used u = elim (ℕ_discrete j p) [
  | yes same ↦ subst (λ q. find_unused (suc count) q table ≡ some p) (sym same) (rw u refl)
  | no other ↦
      rw (used j (omega arith))
        (find_unused-at count (suc j) p table (omega arith) (omega arith) used u)
]

-- The lock of the table says nothing of the pages.
Holds-switched :
    (i v : ℕ) (m : Machine) (t : ℕ → ProcessInfo) (xs : Cells)
    → Nesting i m
    → Holds m xs
    → Holds (record (switched i table_lock v m) { processes = t }) xs
Holds-switched i v m t xs n h =
    let s = switched i table_lock v m in
    record {
      ready = record {
        usable =
            inr (i, Nesting-memory i s s.mem s.page_list t (switched-Nesting i table_lock v m n));
        free = h.ready.free;
      };
      linked = h.linked;
    }

-- The state with the entry `p` given up.
abbrev given_up : (p : ℕ) → Machine → Machine
given_up p m = record m {
  processes = update m.processes p (record (m.processes p) { state = unused });
}

pub free_process-given_up :
    (fuel i p a k lo : ℕ) (xs : Cells) (m : Machine)
    → Section i 0 m
    → Holds m ((a, k) ∷ xs)
    → 24 ≤ lo
    → Ordered lo ((a, k) ∷ xs)
    → a ≤ (m.processes p).kernel_stack
    → Fits (m.processes p).kernel_stack 1 (a + page_size * k) xs
    → (m.processes p).kernel_stack + page_size < 2 ^ 64
    → length ((a, k) ∷ xs) < fuel
    → (m' : Machine) × (free_process fuel p m ≡ ok tt m')
      × Holds m' (place (m.processes p).kernel_stack 1 ((a, k) ∷ xs))
      × (m'.processes ≡ (given_up p m).processes)
      × Section i 0 m'
unfolding free_process free_page
free_process-given_up fuel i p a k lo xs m s holds room o below fits small enough =
    let stack = (m.processes p).kernel_stack in
    let n₁ = switched-Nesting i table_lock 1 m s.nesting in
    let m₁ : Machine = given_up p (switched i table_lock 1 m) in
    let s₁ : Section i 1 m₁ = record {
      nesting = Nesting-memory i (switched i table_lock 1 m) m₁.mem m₁.page_list m₁.processes n₁;
      lock = refl;
    } in
    let h₁ : Holds m₁ ((a, k) ∷ xs) =
      Holds-switched i 1 m m₁.processes ((a, k) ∷ xs) s.nesting holds in
    let freed =
      (free_pages-place fuel stack 1 a k lo xs m₁ h₁ room o below fits (omega arith) (omega arith)
        enough).0 in
    let m₂ = freed.after in
    let s₂ = kept (Keeps-free_pages _ (Section-Apart i 1) fuel stack 1) m₁ tt m₂ s₁ freed.runs in
    let at : (m₁.processes p).kernel_stack ≡ stack =
      ap (λ e. e.kernel_stack) (update_here m.processes p _) in
    (
      switched i table_lock 0 m₂,
      rw (acquire_free i table_lock m s.nesting s.lock, at, freed.runs)
          (release_lem i table_lock m₂ s₂.nesting),
      Holds-switched i 0 m₂ m₂.processes (place stack 1 ((a, k) ∷ xs)) s₂.nesting freed.holds,
      free_pages-same _ processes-Ignored fuel stack 1 m₁ m₂ freed.runs,
      record { nesting = switched-Nesting i table_lock 0 m₂ s₂.nesting; lock = refl },
    )

-- `freeProcess`, where the stack of the process `p` lies above the first chunk of free pages and
-- touches no chunk: it ends, the allocator then holds the list with that page put in order, and the
-- lock of the table is free again. Where no entry in front of `p` is unused, the loop of
-- `allocateProcess` finds `p` next; another entry `q` is as it was.
pub free_process-reused :
    (fuel i p q a k lo : ℕ) (xs : Cells) (m : Machine)
    → Section i 0 m
    → Holds m ((a, k) ∷ xs)
    → 24 ≤ lo
    → Ordered lo ((a, k) ∷ xs)
    → a ≤ (m.processes p).kernel_stack
    → Fits (m.processes p).kernel_stack 1 (a + page_size * k) xs
    → (m.processes p).kernel_stack + page_size < 2 ^ 64
    → length ((a, k) ∷ xs) < fuel
    → p < process_count
    → ((j : ℕ) → j < p → is_unused (m.processes j).state ≡ false)
    → q ≢ p
    → (m' : Machine) × (free_process fuel p m ≡ ok tt m')
      × Holds m' (place (m.processes p).kernel_stack 1 ((a, k) ∷ xs))
      × (find_unused process_count 0 m'.processes ≡ some p)
      × (m'.processes q ≡ m.processes q)
      × Section i 0 m'
free_process-reused fuel i p q a k lo xs m s holds room o below fits small enough h used ne =
    let (m', runs, holds', same, s') =
      free_process-given_up fuel i p a k lo xs m s holds room o below fits small enough in
    (
      m',
      runs,
      holds',
      subst (λ t. find_unused process_count 0 t ≡ some p) (sym same)
          (find_unused-at process_count 0 p (given_up p m).processes (omega arith) h
            (λ j b. rw (==_ne p j (λ e. omega arith)) (used j b)) (rw (==_refl p) refl)),
      ap (λ t. t q) same ∙ rw (==_ne p q (λ e. ne (sym e))) refl,
      s',
    )
