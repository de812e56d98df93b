-- ===== src/PhysicalMemory/Access.antt =====
-- `if (Memory.usingLock)`: the lock around each operation, on one processor or on several.
use xesual.Base.{ℕ, ◌≡◌, ◌⊎◌, inl, inr, refl, ap, sym, ◌∙◌, true, false, arith, Bool-cases}
use xesual.Machine.{Machine, page_lock, ok, when}
use mathlib.Core.Path.{subst}
use xesual.Smp.{lapic_id}
use xesual.Cpu.Nesting.{Nesting, this_cpu_same}
use xesual.Spinlock.{acquire, release}
use xesual.Spinlock.Sections.{switched, acquire_free, release_lem, switched-Nesting}
use xesual.PhysicalMemory.{lock_pages, unlock_pages}
use xesual.PhysicalMemory.Chunks.{Cells, Linked}

-- The lock is not in use yet, or the executing processor can take and release it.
abbrev pub Usable : Machine → Type 0
Usable m = (m.using_lock ≡ false) ⊎ ((i : ℕ) × Nesting i m)

-- An operation may begin: nobody holds the lock.
pub record Ready (m : Machine) : Type 0 where
  pub usable : Usable m
  pub free : m.using_lock ≡ true → m.held page_lock ≡ 0

-- Two states with the same pages.
pub record SamePages (m m' : Machine) : Type 0 where
  pub mem : m'.mem ≡ m.mem
  pub list : m'.page_list ≡ m.page_list

pub Usable-pages :
    (m : Machine) (f : ℕ → ℕ) (p : ℕ) → Usable m → Usable (record m { mem = f; page_list = p })
unfolding lapic_id
Usable-pages m f p (inl e) = inl e
Usable-pages m f p (inr (i, n)) = inr (
  i,
  record {
    here = this_cpu_same m (record m { mem = f; page_list = p }) refl refl (λ k. refl) ∙ n.here;
    room = n.room;
    off = n.off;
  },
)

pub record Entered (m : Machine) : Type 0 where
  pub inside : Machine
  pub runs : lock_pages m ≡ ok tt inside
  pub same : SamePages m inside
  pub usable : Usable inside

pub record Left (m : Machine) : Type 0 where
  pub outside : Machine
  pub runs : unlock_pages m ≡ ok tt outside
  pub same : SamePages m outside
  pub ready : Ready outside

-- Entering and leaving change nothing but the lock and the note of `pushCLI`.
pub enter : (m : Machine) → Ready m → Entered m
unfolding lock_pages
enter m r = elim (Bool-cases m.using_lock) [
  | inr e ↦ record {
    inside = m;
    runs = ap (λ b. when b (acquire page_lock) m) e;
    same = record { mem = refl; list = refl };
    usable = r.usable;
  }
  | inl e ↦ elim r.usable [
    | inl e' ↦ absurd (ground arith)
    | inr (i, n) ↦ record {
      inside = switched i page_lock 1 m;
      runs = ap (λ b. when b (acquire page_lock) m) e ∙ acquire_free i page_lock m n (r.free e);
      same = record { mem = refl; list = refl };
      usable = inr (i, switched-Nesting i page_lock 1 m n);
    }
  ]
]

pub leave : (m : Machine) → Usable m → Left m
unfolding unlock_pages
leave m u = elim (Bool-cases m.using_lock) [
  | inr e ↦ record {
    outside = m;
    runs = ap (λ b. when b (release page_lock) m) e;
    same = record { mem = refl; list = refl };
    ready = record { usable = u; free = λ t. ground arith };
  }
  | inl e ↦ elim u [
    | inl e' ↦ absurd (ground arith)
    | inr (i, n) ↦ record {
      outside = switched i page_lock 0 m;
      runs = ap (λ b. when b (release page_lock) m) e ∙ release_lem i page_lock m n;
      same = record { mem = refl; list = refl };
      ready = record { usable = inr (i, switched-Nesting i page_lock 0 m n); free = λ t. refl };
    }
  ]
]

-- What the memory holds is the same in both states.
pub along {ℓ} :
    {m m' : Machine} (P : (ℕ → ℕ) → ℕ → Type ℓ)
    → SamePages m m'
    → P m.mem m.page_list
    → P m'.mem m'.page_list
along {m} {m'} P s h =
    subst (λ p. P m'.mem p) (sym s.list) (subst (λ f. P f m.page_list) (sym s.mem) h)

-- The list that the allocator holds in a state.
pub record Holds (m : Machine) (xs : Cells) : Type 0 where
  pub ready : Ready m
  pub linked : Linked m.mem 0 m.page_list xs

abbrev pub ListAt : Cells → (ℕ → ℕ) → ℕ → Type 0
ListAt xs f p = Linked f 0 p xs
