-- ===== src/Processes/Table.antt =====
-- `allocateProcess`: the entry that it takes, and the stack that it prepares.
use xesual.Base.{
  ◌*◌, ℕ, zero, suc, ◌+◌, ◌-◌, ◌≤◌, ◌<◌, ◌≡◌, refl, ap, arith, true, false, none, some, Bool-cases,
  ◌==◌, ==_refl, inl, inr, ℕ_discrete, fun_ext, if◌then◌else◌,
}
use xesual.Machine.{Machine, ProcessInfo, table_lock, ok, update}
use xesual.Machine.Memory.{memset, store-ok, cleared}
use xesual.Address.{page_size}
use xesual.Cpu.Nesting.{Nesting}
use xesual.Spinlock.Sections.{switched, acquire_free, release_lem, switched-Nesting}
use xesual.Processes.{
  process_count, is_unused, find_unused, size_of_registers, size_of_context, rip_of, set_up_stack,
  claim_entry, allocate_process,
}

-- Where some entry is unused, the loop finds an unused one that stands no later: the first.
pub find_unused-first :
    (count p k : ℕ) (table : ℕ → ProcessInfo)
    → p ≤ k
    → k < p + count
    → is_unused (table k).state ≡ true
    → (q : ℕ) × (find_unused count p table ≡ some q) × (q ≤ k) × (is_unused (table q).state ≡ true)
unfolding find_unused
find_unused-first zero p k table a b u = absurd (omega arith)
find_unused-first (suc count) p k table a b u = elim (Bool-cases (is_unused (table p).state)) [
  | inl e ↦ (p, rw e refl, a, e)
  | inr e ↦ elim (ℕ_discrete p k) [
    | yes same ↦ absurd (ground (arith, ap (λ j. is_unused (table j).state) same))
    | no other ↦
        let (q, f, le, t) = find_unused-first count (suc p) k table (omega arith) (omega arith) u in
        (q, rw e f, le, t)
  ]
]

find_unused-none :
    (count p : ℕ) (table : ℕ → ProcessInfo)
    → ((k : ℕ) → k < p + count → is_unused (table k).state ≡ false)
    → find_unused count p table ≡ none
unfolding find_unused
find_unused-none zero p table h = refl
find_unused-none (suc count) p table h =
    rw (h p (omega arith)) (find_unused-none count (suc p) table λ k b. h k (omega arith))

-- The fields that `allocateProcess` gives the new entry.
abbrev pub stack_fields : ℕ → ProcessInfo → ProcessInfo
stack_fields stack i = record i { trap_frame = stack + 3920; kernel_task = stack + 3856 }

-- The state with the stack prepared.
abbrev pub prepared : (trap_ret entry p stack : ℕ) → Machine → Machine
prepared trap_ret entry p stack m = record m {
  mem =
      update (cleared (update m.mem (stack + 3912) trap_ret) (stack + 3856) size_of_context)
        (stack + 3904) entry;
  processes = update m.processes p (stack_fields stack (m.processes p));
}

pub twice :
    (table : ℕ → ProcessInfo) (p : ℕ) (x y : ProcessInfo)
    → update (update table p x) p y ≡ update table p y
twice table p x y = fun_ext λ q.
    elim (p == q)
      as (λ b. (if b then y else (if b then x else table q)) ≡ (if b then y else table q)) [
        | true ↦ refl
        | false ↦ refl
      ]

pub set_up_stack-prepared :
    (trap_ret entry p stack : ℕ) (m : Machine)
    → set_up_stack trap_ret entry p stack m ≡ ok tt (prepared trap_ret entry p stack m)
unfolding set_up_stack memset
set_up_stack-prepared trap_ret entry p stack m =
    rw
      (
        (let e : stack + page_size - size_of_registers ≡ stack + 3920 = omega arith in e),
        (let e : stack + 3920 - 8 ≡ stack + 3912 = omega arith in e),
        (let e : stack + 3912 - size_of_context ≡ stack + 3856 = omega arith in e),
        store-ok (stack + 3912) trap_ret _ (λ z. omega arith),
        ==_refl p,
        (let e : stack + 3856 + 48 ≡ stack + 3904 = omega arith in e),
        store-ok (stack + 3904) entry _ (λ z. omega arith),
      )
      (ap (λ t. ok tt (record m { mem = (prepared trap_ret entry p stack m).mem; processes = t }))
        (twice m.processes p _ _))

-- The stack of a new process, which `Pause` switches to: it pops six registers, all 0, then returns
-- to the entry point, whose own return leads to `TrapRet` with the stack at the trap frame; the
-- frame ends where the page ends.
pub set_up_stack-frame :
    (trap_ret entry p stack r : ℕ) (m : Machine)
    → r < 6
    → (m' : Machine) × (set_up_stack trap_ret entry p stack m ≡ ok tt m')
      × (m'.mem ((m'.processes p).kernel_task + 8 * r) ≡ 0)
      × (m'.mem (rip_of (m'.processes p).kernel_task) ≡ entry)
      × (m'.mem (rip_of (m'.processes p).kernel_task + 8) ≡ trap_ret)
      × ((m'.processes p).trap_frame ≡ rip_of (m'.processes p).kernel_task + 16)
      × ((m'.processes p).trap_frame + size_of_registers ≡ stack + page_size)
set_up_stack-frame trap_ret entry p stack r m h = (
  prepared trap_ret entry p stack m,
  set_up_stack-prepared trap_ret entry p stack m,
  rw (==_refl p) (ground arith),
  rw (==_refl p) (ground arith),
  rw (==_refl p) (ground arith),
  rw (==_refl p) (omega arith),
  rw (==_refl p) (omega arith),
)

-- With every entry in use `allocateProcess` returns null, with the lock free again and nothing else
-- changed but the note of the interrupt flag.
pub allocate_process-full :
    (trap_ret entry fuel i : ℕ) (m : Machine)
    → Nesting i m
    → m.held table_lock ≡ 0
    → ((k : ℕ) → k < process_count → is_unused (m.processes k).state ≡ false)
    → allocate_process trap_ret entry fuel m
      ≡ ok none (switched i table_lock 0 (switched i table_lock 1 m))
unfolding allocate_process claim_entry
allocate_process-full trap_ret entry fuel i m n unheld used =
    rw
      (
        acquire_free i table_lock m n unheld,
        find_unused-none process_count 0 m.processes used,
        release_lem i table_lock (switched i table_lock 1 m) (switched-Nesting i table_lock 1 m n),
      )
      refl
