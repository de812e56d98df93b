-- ===== src/Processes/Fresh.antt =====
-- `allocateProcess` where there is an entry and memory for it.
use xesual.Base.{ℕ, ◌+◌, ◌≡◌, ◌≢◌, refl, sym, ap, ◌∙◌, arith, some, Option, ==_ne, ℕ_discrete}
use mathlib.Core.Path.{subst}
use xesual.Machine.{Machine, ProcessInfo, fresh, page_lock, table_lock, ok, update, Cmd, ◌>>◌}
use xesual.Machine.Keeps.{After, kept}
use xesual.Address.{page_size}
use xesual.Smp.{lapic_id}
use xesual.Cpu.Nesting.{Nesting, this_cpu_same, update_here}
use xesual.Spinlock.{release}
use xesual.Spinlock.Frame.{Ignored}
use xesual.Spinlock.Sections.{switched, acquire_free, acquire_held, release_lem, switched-Nesting}
use xesual.PhysicalMemory.{allocate_page}
use xesual.PhysicalMemory.Frame.{Apart, Same-Apart, Keeps-allocate_pages, allocate_pages-same}
use xesual.VirtualMemory.{shallow_copy}
use xesual.VirtualMemory.Kept.{Keeps-shallow_copy}
use xesual.Processes.{
  process_count, find_unused, size_of_registers, change_process, set_state, finish_process,
  claim_entry, allocate_process,
}
use xesual.Processes.Table.{prepared, stack_fields, twice, set_up_stack-prepared}

-- The processor `i` runs, and the table's lock is held, or is not.
pub record Section (i held : ℕ) (m : Machine) : Type 0 where
  pub nesting : Nesting i m
  pub lock : m.held table_lock ≡ held

pub Nesting-memory :
    (i : ℕ) (m : Machine) (f : ℕ → ℕ) (p : ℕ) (t : ℕ → ProcessInfo)
    → Nesting i m
    → Nesting i (record m { mem = f; page_list = p; processes = t })
unfolding lapic_id
Nesting-memory i m f p t n = record {
  here =
      this_cpu_same m (record m { mem = f; page_list = p; processes = t }) refl refl (λ k. refl)
      ∙ n.here;
  room = n.room;
  off = n.off;
}

-- The lock of the pages is another one.
pub Section-Apart : (i held : ℕ) → Apart (Section i held)
Section-Apart i held = record {
  memory = λ m f s. record {
    nesting = Nesting-memory i m f m.page_list m.processes s.nesting;
    lock = s.lock;
  };
  list =
      λ m p s. record { nesting = Nesting-memory i m m.mem p m.processes s.nesting; lock = s.lock };
  acquire = record {
    runs = λ m s. elim (ℕ_discrete (m.held page_lock) 0) [
      | yes free ↦
          subst (After (Section i held)) (sym (acquire_free i page_lock m s.nesting free))
            (record { nesting = switched-Nesting i page_lock 1 m s.nesting; lock = s.lock })
      | no taken ↦
          subst (After (Section i held)) (sym (acquire_held i page_lock m s.nesting.here taken)) tt
    ];
  };
  release = record {
    runs = λ m s.
        subst (After (Section i held)) (sym (release_lem i page_lock m s.nesting))
          (record { nesting = switched-Nesting i page_lock 0 m s.nesting; lock = s.lock });
  };
}

pub processes-Ignored : Ignored (λ m. m.processes)
processes-Ignored = record {
  memory = λ m f. refl;
  list = λ m p. refl;
  locks = λ m h. refl;
  flag = λ m b. refl;
  counts = λ m i f s t. refl;
}

-- The state with the entry `p` taken, and then with its stack noted.
abbrev pub claimed : (p table : ℕ) → Machine → Machine
claimed p table m = record m {
  processes = update m.processes p (record (m.processes p) { page_table = table; state = fresh });
}

abbrev pub with_stack : (p stack : ℕ) → Machine → Machine
with_stack p stack m = record m {
  processes = update m.processes p (record (m.processes p) { kernel_stack = stack });
}

-- The two assignments to the entry.
claim-then :
    (p table : ℕ) (m : Machine) (k : Cmd (Option ℕ))
    → (change_process p (λ i. record i { page_table = table }) >> (set_state p fresh >> k)) m
      ≡ k (claimed p table m)
claim-then p table m k =
    let first : ProcessInfo = record (m.processes p) { page_table = table } in
    ap (λ t. k (record m { processes = t }))
      (ap (λ e. update (update m.processes p first) p (record e { state = fresh }))
          (update_here m.processes p first)
        ∙ twice m.processes p first _)

-- What the rest of the function makes of the claimed entry.
finish-prepared :
    (trap_ret entry fuel i p stack : ℕ) (m m₂ : Machine)
    → Nesting i m
    → allocate_page fuel (switched i table_lock 0 m) ≡ ok stack m₂
    → stack ≢ 0
    → (release table_lock >> finish_process trap_ret entry fuel p) m
      ≡ ok (some p) (prepared trap_ret entry p stack (with_stack p stack m₂))
unfolding finish_process
finish-prepared trap_ret entry fuel i p stack m m₂ n granted stands =
    rw
      (
        release_lem i table_lock m n,
        granted,
        ==_ne stack 0 stands,
        set_up_stack-prepared trap_ret entry p stack (with_stack p stack m₂),
      )
      refl

-- The state that the function ends in.
pub allocate_process-prepared :
    (trap_ret entry fuel i p table stack : ℕ) (m m₁ m₂ : Machine)
    → Section i 0 m
    → find_unused process_count 0 m.processes ≡ some p
    → shallow_copy fuel m.kernel_page_table (switched i table_lock 1 m) ≡ ok table m₁
    → Section i 1 m₁
    → allocate_page fuel (switched i table_lock 0 (claimed p table m₁)) ≡ ok stack m₂
    → stack ≢ 0
    → allocate_process trap_ret entry fuel m
      ≡ ok (some p) (prepared trap_ret entry p stack (with_stack p stack m₂))
unfolding allocate_process claim_entry
allocate_process-prepared trap_ret entry fuel i p table stack m m₁ m₂ s unused copied inside granted
      stands =
    let n₁ : Nesting i (claimed p table m₁) =
      Nesting-memory i m₁ m₁.mem m₁.page_list (claimed p table m₁).processes inside.nesting in
    rw (acquire_free i table_lock m s.nesting s.lock, unused, copied)
      (claim-then p table m₁ (release table_lock >> finish_process trap_ret entry fuel p)
        ∙ finish-prepared trap_ret entry fuel i p stack (claimed p table m₁) m₂ n₁ granted stands)

-- `allocateProcess`, where the entry `p` is the first unused one, the page table can be copied and
-- there is a page for the stack, returns `p`: a fresh process with the copy and the stack, whose
-- trap frame ends where the stack ends; another entry `q` is as it was, and the lock is free again.
pub allocate_process-fresh :
    (trap_ret entry fuel i p q table stack : ℕ) (m m₁ m₂ : Machine)
    → Nesting i m
    → m.held table_lock ≡ 0
    → find_unused process_count 0 m.processes ≡ some p
    → q ≢ p
    → shallow_copy fuel m.kernel_page_table (switched i table_lock 1 m) ≡ ok table m₁
    → allocate_page fuel (switched i table_lock 0 (claimed p table m₁)) ≡ ok stack m₂
    → stack ≢ 0
    → (m' : Machine) × (allocate_process trap_ret entry fuel m ≡ ok (some p) m')
      × ((m'.processes p).state ≡ fresh)
      × ((m'.processes p).page_table ≡ table)
      × ((m'.processes p).kernel_stack ≡ stack)
      × ((m'.processes p).trap_frame + size_of_registers ≡ stack + page_size)
      × (m'.processes q ≡ m.processes q)
      × Section i 0 m'
unfolding allocate_page
allocate_process-fresh trap_ret entry fuel i p q table stack m m₁ m₂ n unheld unused ne copied
      granted stands =
    let entered : Section i 1 (switched i table_lock 1 m) = record {
      nesting = switched-Nesting i table_lock 1 m n;
      lock = refl;
    } in
    let inside : Section i 1 m₁ =
      kept (Keeps-shallow_copy _ (Section-Apart i 1) fuel m.kernel_page_table) _ table m₁ entered
        copied in
    let n₁ : Nesting i (claimed p table m₁) =
      Nesting-memory i m₁ m₁.mem m₁.page_list (claimed p table m₁).processes inside.nesting in
    let left : Section i 0 (switched i table_lock 0 (claimed p table m₁)) = record {
      nesting = switched-Nesting i table_lock 0 (claimed p table m₁) n₁;
      lock = refl;
    } in
    let after : Section i 0 m₂ =
      kept (Keeps-allocate_pages _ (Section-Apart i 0) fuel 1) _ stack m₂ left granted in
    let same₁ : m₁.processes ≡ m.processes =
      kept
        (Keeps-shallow_copy _ (Same-Apart _ processes-Ignored m.processes) fuel m.kernel_page_table)
        _ table m₁ refl copied in
    let same₂ : m₂.processes ≡ (claimed p table m₁).processes =
      allocate_pages-same _ processes-Ignored fuel 1 _ stack m₂ granted in
    let at : (prepared trap_ret entry p stack (with_stack p stack m₂)).processes p
        ≡ stack_fields stack
            (record (m₁.processes p) { page_table = table; state = fresh; kernel_stack = stack }) =
      update_here (with_stack p stack m₂).processes p _
      ∙ ap (stack_fields stack) (update_here m₂.processes p _)
      ∙ ap (λ e. stack_fields stack (record e { kernel_stack = stack }))
          (ap (λ f. f p) same₂ ∙ update_here m₁.processes p _) in
    (
      prepared trap_ret entry p stack (with_stack p stack m₂),
      allocate_process-prepared trap_ret entry fuel i p table stack m m₁ m₂
          (record { nesting = n; lock = unheld }) unused copied inside granted stands,
      ap (λ e. e.state) at,
      ap (λ e. e.page_table) at,
      ap (λ e. e.kernel_stack) at,
      ap (λ e. e.trap_frame + size_of_registers) at ∙ omega arith,
      rw (==_ne p q (λ e. ne (sym e)))
          (ap (λ f. f q) same₂ ∙ rw (==_ne p q (λ e. ne (sym e))) (ap (λ f. f q) same₁)),
      record { nesting = Nesting-memory i m₂ _ m₂.page_list _ after.nesting; lock = after.lock },
    )
