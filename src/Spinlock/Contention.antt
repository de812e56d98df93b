-- ===== src/Spinlock/Contention.antt =====
-- Kernel/Spinlock.cpp under contention: any number of processors, whose atomic accesses to
-- `held` interleave in any order.
use xesual.Base.{
  ℕ, Bool, true, false, ◌≡◌, ◌≢◌, ◌⊎◌, inl, inr, refl, sym, ap, ◌∙◌, arith, ==_ne, ==_refl,
  ℕ_discrete,
}
use xesual.Machine.{update}

-- Where a processor stands: before `acquire`, in its loop, between `acquire` and `release`, or, with
-- the lock taken, in the loop of another `acquire`, which the handler of an interrupt has called.
pub data Pc : Type 0 where
  outside trying inside spinning : Pc

pub record System : Type 0 where
  pub held : ℕ
  pub pc : ℕ → Pc

-- The value that `__sync_lock_test_and_set` leaves.
abbrev pub taken : ℕ
taken = 1

-- One atomic access of a processor, or an interrupt: `held` before and after, and where it goes.
-- `acquire` turns the interrupts on again before it returns, so that one may come inside, but none
-- comes in the loop. A lock is released by the processor that has it.
pub data Move : ℕ → Pc → ℕ → Pc → Type 0 where
  start : {h : ℕ} → Move h outside h trying
  win : {h : ℕ} → h ≡ 0 → Move h trying taken inside
  lose : {h : ℕ} → h ≢ 0 → Move h trying taken trying
  leave : {h h' : ℕ} → h' ≡ 0 → Move h inside h' outside
  interrupt : {h : ℕ} → Move h inside h spinning
  spin : {h : ℕ} → h ≢ 0 → Move h spinning taken spinning
  get_through : {h : ℕ} → h ≡ 0 → Move h spinning taken inside

pub data Step (s : System) : System → Type 0 where
  pick :
      (i : ℕ) {h : ℕ} {p : Pc}
      → Move s.held (s.pc i) h p
      → Step s (record { held = h; pc = update s.pc i p })

abbrev pub initial : System
initial = record { held = 0; pc = λ _. outside }

pub data Reach : System → Type 0 where
  booted : Reach initial
  later : {s t : System} → Reach s → Step s t → Reach t

-- The lock was taken and is not released.
abbrev pub has_lock : Pc → Bool
has_lock outside = false
has_lock trying = false
has_lock inside = true
has_lock spinning = true

-- At most one processor has the lock, `held` is set while one does, and it is set only then.
pub record Inv (held : ℕ) (pc : ℕ → Pc) : Type 0 where
  pub unique : (i j : ℕ) → has_lock (pc i) ≡ true → has_lock (pc j) ≡ true → i ≡ j
  pub marked : (i : ℕ) → has_lock (pc i) ≡ true → held ≢ 0
  pub owned : (held ≡ 0) ⊎ ((i : ℕ) × (has_lock (pc i) ≡ true))

module _ (pc : ℕ → Pc) (i : ℕ) (p' : Pc) (j : ℕ) where
  update_at : i ≡ j → update pc i p' j ≡ p'
  update_at e = rw (e, ==_refl j) refl

  update_off : i ≢ j → update pc i p' j ≡ pc j
  update_off ne = rw (==_ne i j ne) refl

module _ {h : ℕ} {pc : ℕ → Pc} (inv : Inv h pc) (i : ℕ) where
  -- A processor that has the lock after a step that neither takes nor releases it had it before.
  had :
      (p' : Pc) (j : ℕ)
      → has_lock (pc i) ≡ has_lock p'
      → has_lock (update pc i p' j) ≡ true
      → has_lock (pc j) ≡ true
  had p' j same a = elim (ℕ_discrete i j) [
    | yes e ↦
        ap (λ k. has_lock (pc k)) (sym e) ∙ same ∙ sym (ap has_lock (update_at pc i p' j e)) ∙ a
    | no ne ↦ sym (ap has_lock (update_off pc i p' j ne)) ∙ a
  ]

  still :
      (p' : Pc) (j : ℕ)
      → has_lock (pc i) ≡ has_lock p'
      → has_lock (pc j) ≡ true
      → has_lock (update pc i p' j) ≡ true
  still p' j same a = elim (ℕ_discrete i j) [
    | yes e ↦ ap has_lock (update_at pc i p' j e) ∙ sym same ∙ ap (λ k. has_lock (pc k)) e ∙ a
    | no ne ↦ ap has_lock (update_off pc i p' j ne) ∙ a
  ]

  -- A step that neither takes nor releases the lock, with `held` set as it was.
  same_Inv :
      (p' : Pc) (h' : ℕ)
      → has_lock (pc i) ≡ has_lock p'
      → (h' ≡ h) ⊎ ((h ≢ 0) × (h' ≢ 0))
      → Inv h' (update pc i p')
  same_Inv p' h' same held = record {
    unique = λ j k a b. inv.unique j k (had p' j same a) (had p' k same b);
    marked = λ j a. elim held [
      | inl e ↦ (λ z. inv.marked j (had p' j same a) (sym e ∙ z))
      | inr (ne, ne') ↦ ne'
    ];
    owned = elim inv.owned [
      | inl z ↦ elim held [ inl e ↦ inl (e ∙ z) | inr (ne, ne') ↦ absurd (ne z) ]
      | inr (j, a) ↦ inr (j, still p' j same a)
    ];
  }

  -- The lock is free, so that no processor has it.
  nobody : h ≡ 0 → (j : ℕ) → has_lock (pc j) ≡ true → ⊥
  nobody z j a = inv.marked j a z

  only_new : h ≡ 0 → (j : ℕ) → has_lock (update pc i inside j) ≡ true → i ≡ j
  only_new z j a = elim (ℕ_discrete i j) [
    | yes e ↦ e
    | no ne ↦ absurd (nobody z j (sym (ap has_lock (update_off pc i inside j ne)) ∙ a))
  ]

  win_Inv : h ≡ 0 → Inv taken (update pc i inside)
  win_Inv z = record {
    unique = λ j k a b. sym (only_new z j a) ∙ only_new z k b;
    marked = λ j a. λ e. omega arith;
    owned = inr (i, ap has_lock (update_at pc i inside i refl));
  }

  -- Nobody but the processor that releases the lock has it.
  nobody_left : pc i ≡ inside → (j : ℕ) → has_lock (update pc i outside j) ≡ true → ⊥
  nobody_left e j a = elim (ℕ_discrete i j) [
    | yes same ↦ (let t = sym (ap has_lock (update_at pc i outside j same)) ∙ a in ground arith)
    | no ne ↦
        ne (inv.unique i j (ap has_lock e) (sym (ap has_lock (update_off pc i outside j ne)) ∙ a))
  ]

  leave_Inv : (h' : ℕ) → pc i ≡ inside → h' ≡ 0 → Inv h' (update pc i outside)
  leave_Inv h' e z = record {
    unique = λ j k a b. absurd (nobody_left e j a);
    marked = λ j a. absurd (nobody_left e j a);
    owned = inl z;
  }

  Move-Inv : {p p' : Pc} {h' : ℕ} → Move h p h' p' → pc i ≡ p → Inv h' (update pc i p')
  Move-Inv start e = same_Inv trying h (ap has_lock e) (inl refl)
  Move-Inv (win z) e = win_Inv z
  Move-Inv (lose z) e = same_Inv trying taken (ap has_lock e) (inr (z, (λ e. omega arith)))
  Move-Inv (leave z) e = leave_Inv _ e z
  Move-Inv interrupt e = same_Inv spinning h (ap has_lock e) (inl refl)
  Move-Inv (spin z) e = same_Inv spinning taken (ap has_lock e) (inr (z, (λ e. omega arith)))
  Move-Inv (get_through z) e = win_Inv z

Inv-initial : Inv 0 (λ _. outside)
Inv-initial = record {
  unique = λ i j a b. ground arith;
  marked = λ i a. ground arith;
  owned = inl refl;
}

Reach-Inv : {s : System} → Reach s → Inv s.held s.pc
Reach-Inv booted = Inv-initial
Reach-Inv (later r (pick i mv)) = Move-Inv (Reach-Inv r) i mv refl

-- In every reachable state at most one processor is between `acquire` and `release`.
pub mutual_exclusion :
    {s : System} → Reach s → (i j : ℕ) → s.pc i ≡ inside → s.pc j ≡ inside → i ≡ j
mutual_exclusion r i j a b = (Reach-Inv r).unique i j (ap has_lock a) (ap has_lock b)

-- Any number of steps.
pub data Steps (s : System) : System → Type 0 where
  now : Steps s s
  further : {t u : System} → Steps s t → Step t u → Steps s u

Steps-Reach : {s t : System} → Reach s → Steps s t → Reach t
Steps-Reach r now = r
Steps-Reach r (further q step) = later (Steps-Reach r q) step

-- The handler does not get through its loop.
Move-spinning : {h h' : ℕ} {p p' : Pc} → Move h p h' p' → p ≡ spinning → h ≢ 0 → p' ≡ spinning
Move-spinning start e ne = cc
Move-spinning (win z) e ne = cc
Move-spinning (lose z) e ne = cc
Move-spinning (leave z) e ne = cc
Move-spinning interrupt e ne = refl
Move-spinning (spin z) e ne = refl
Move-spinning (get_through z) e ne = absurd (ne z)

Step-spinning :
    {s t : System} (i : ℕ) → Inv s.held s.pc → s.pc i ≡ spinning → Step s t → t.pc i ≡ spinning
Step-spinning {s = s} i inv e (pick j {p = p'} mv) = elim (ℕ_discrete j i) [
  | yes same ↦
      update_at s.pc j p' i same
      ∙ Move-spinning mv (ap s.pc same ∙ e) (inv.marked i (ap has_lock e))
  | no ne ↦ update_off s.pc j p' i ne ∙ e
]

still_spinning :
    {s t : System} (i : ℕ) → Reach s → s.pc i ≡ spinning → Steps s t → t.pc i ≡ spinning
still_spinning i r e now = e
still_spinning i r e (further q step) =
    Step-spinning i (Reach-Inv (Steps-Reach r q)) (still_spinning i r e q) step

-- When the processor that has the lock takes an interrupt whose handler acquires the same lock, then
-- in every later state, whatever the processors do, it is still in the loop of the handler, `held`
-- is set, and no processor is between `acquire` and `release`.
pub spinning-forever :
    {s t : System}
    → Reach s
    → (i : ℕ) → s.pc i ≡ spinning
    → Steps s t
    → (t.pc i ≡ spinning) × (t.held ≢ 0) × ((j : ℕ) → t.pc j ≢ inside)
spinning-forever {t = t} r i e q =
    let inv = Reach-Inv (Steps-Reach r q) in
    let e' = still_spinning i r e q in
    (
      e',
      inv.marked i (ap has_lock e'),
      (λ j a.
          let same = inv.unique i j (ap has_lock e') (ap has_lock a) in
          apart (sym e' ∙ ap t.pc same ∙ a)),
    )
  where
    apart : ◌≢◌ {A = Pc} spinning inside
    apart e = cc
