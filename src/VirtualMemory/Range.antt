-- ===== src/VirtualMemory/Range.antt =====
-- A loop of `map` over the pages of a range, where the tables for them are there.
use xesual.Base.{
  ℕ, zero, suc, ◌+◌, ◌*◌, ◌/◌, ◌%◌, ◌^◌, ◌<◌, ◌≡◌, ◌≢◌, refl, sym, ◌∙◌, arith, Bool, true, false,
  ==_refl, if◌then◌else◌, ltb, lt→ltb, le→ltb, some, Option, ℕ_discrete, dec_lt,
}
use mathlib.Core.Path.{subst}
use xesual.Machine.{Machine, ok, Cmd, for_loop}
use xesual.VirtualMemory.{map}
use xesual.VirtualMemory.Translation.{
  entry1, entry2, entry3, translate, Tables, leaf, mapped, map-mapped, map-translate,
}
use xesual.VirtualMemory.Frame.{
  Passes, mapped-translate, entry3-mapped, entry2-mapped, entry1-mapped, Tables-mapped, leaf-mapped,
}

-- The tables for the addresses `va k` are there, apart from their last entries, which are different
-- from one another and have no address above 2 ^ 40 in them.
pub record Region (m : Machine) (root n : ℕ) (va : ℕ → ℕ) : Type 0 where
  pub tables : (k : ℕ) → k < n → Tables m root (va k)
  pub passes : (j k : ℕ) → j < n → k < n → Passes m root (va j) (va k)
  pub distinct : (j k : ℕ) → j < n → k < n → j ≢ k → entry1 m root (va j) ≢ entry1 m root (va k)
  pub clear : (k : ℕ) → k < n → m.mem (entry1 m root (va k)) / 2 ^ 40 % 2 ^ 12 ≡ 0

chosen : {o : Option ℕ} (b : Bool) (x y : Option ℕ) → b ≡ true → o ≡ (if b then x else y) → o ≡ x
chosen true x y t e = e
chosen false x y t e = absurd (ground arith)

pub refused :
    {o : Option ℕ} (b : Bool) (x y : Option ℕ) → b ≡ false → o ≡ (if b then x else y) → o ≡ y
refused true x y t e = absurd (ground arith)
refused false x y t e = e

leaf-clear : (pa raw : ℕ) → raw / 2 ^ 40 % 2 ^ 12 ≡ 0 → leaf pa raw / 2 ^ 40 % 2 ^ 12 ≡ 0
leaf-clear pa raw h = omega arith

module _ (root n : ℕ) (va : ℕ → ℕ) where
  Region-mapped :
      (m : Machine) (j pa : ℕ)
      → j < n
      → Region m root n va
      → Region (mapped m root (va j) pa) root n va
  Region-mapped m j pa h r =
      let way1 : (k : ℕ)
          → k < n
          → entry1 (mapped m root (va j) pa) root (va k) ≡ entry1 m root (va k) =
        λ k p. entry1-mapped root (va j) pa (va k) m (r.passes j k h p) in
      let way2 : (k : ℕ)
          → k < n
          → entry2 (mapped m root (va j) pa) root (va k) ≡ entry2 m root (va k) =
        λ k p. entry2-mapped root (va j) pa (va k) m (r.passes j k h p) in
      let way3 : (k : ℕ)
          → k < n
          → entry3 (mapped m root (va j) pa) root (va k) ≡ entry3 m root (va k) =
        λ k p. entry3-mapped root (va j) pa (va k) m (r.passes j k h p) in
      record {
        tables = λ k p. Tables-mapped root (va j) pa (va k) m (r.passes j k h p) (r.tables k p);
        passes = λ i k p q. record {
          apart4 = rw (way1 i p) (r.passes i k p q).apart4;
          apart3 = rw (way1 i p, way3 k q) (r.passes i k p q).apart3;
          apart2 = rw (way1 i p, way2 k q) (r.passes i k p q).apart2;
        };
        distinct = λ i k p q ne. rw (way1 i p, way1 k q) (r.distinct i k p q ne);
        clear = λ k p. elim (ℕ_discrete j k) [
          | yes e ↦
              subst
                (λ i.
                  (mapped m root (va j) pa).mem (entry1 (mapped m root (va j) pa) root (va i))
                    / 2 ^ 40
                    % 2 ^ 12
                  ≡ 0)
                e (rw (way1 j h, ==_refl (entry1 m root (va j))) (leaf-clear pa _ (r.clear j h)))
          | no e ↦
              rw (leaf-mapped root (va j) pa (va k) m (r.passes j k h p) (r.distinct j k h p e))
                (r.clear k p)
        ];
      }

  module _ (pa : ℕ → ℕ) (fuel : ℕ) (small : (k : ℕ) → k < n → pa k < 2 ^ 40) where
    -- Where the processor should find an address of the range.
    abbrev pub target : ℕ → Option ℕ
    target k = some (pa k / 2 ^ 12 * 2 ^ 12 + va k % 2 ^ 12)

    -- What the loop leaves of the state, from the page `k` on.
    abbrev Done : (k i : ℕ) → Machine → Machine → Type 0
    Done k i m m' =
        Region m' root n va
        × (translate m' root (va i) ≡ (if ltb i k then translate m root (va i) else target i))

    -- One page more.
    one_page :
        (k i : ℕ) (m m' : Machine)
        → k < n
        → i < n
        → Region m root n va
        → Done (suc k) i (mapped m root (va k) (pa k)) m'
        → Done k i m m'
    one_page k i m m' h p r (r', e) = (
      r',
      elim (dec_lt i k) [
        | yes lt ↦
            chosen _ _ _ (lt→ltb i (suc k) (omega arith)) e
            ∙ mapped-translate root (va k) (pa k) (va i) m (r.passes k i h p)
                (r.distinct k i h p (λ d. omega arith))
            ∙ sym (chosen _ _ _ (lt→ltb i k lt) refl)
        | no ge ↦ elim (ℕ_discrete k i) [
          | yes same ↦
              chosen _ _ _ (lt→ltb i (suc k) (omega arith)) e
              ∙ subst (λ j. translate (mapped m root (va k) (pa k)) root (va j) ≡ target j) same
                  (map-translate fuel root (va k) (pa k) m (r.tables k h) (r.clear k h)
                    (small k h)).1
              ∙ sym (refused _ _ _ (le→ltb i k (omega arith)) refl)
          | no other ↦
              refused _ _ _ (le→ltb i (suc k) (omega arith)) e
              ∙ sym (refused _ _ _ (le→ltb i k (omega arith)) refl)
        ]
      ],
    )

    -- The loop with a body that maps the page `k` in every state that it meets.
    pub map_pages :
        (body : ℕ → Cmd (Unit {0})) (count k i : ℕ) (m : Machine)
        → ((k : ℕ) (g : ℕ → ℕ)
            → body k (record m { mem = g }) ≡ map fuel root (va k) (pa k) (record m { mem = g }))
        → k + count ≡ n
        → i < n
        → Region m root n va
        → (g : ℕ → ℕ) × (for_loop count k body m ≡ ok tt (record m { mem = g }))
          × Done k i m (record m { mem = g })
    unfolding for_loop
    map_pages body zero k i m same e p r = (m.mem, refl, (r, rw (lt→ltb i k (omega arith)) refl))
    map_pages body (suc count) k i m same e p r =
        let h : k < n = omega arith in
        let (g, run, done) =
          map_pages body count (suc k) i (mapped m root (va k) (pa k)) same (omega arith) p
            (Region-mapped m k (pa k) h r) in
        (
          g,
          rw (same k m.mem, map-mapped fuel root (va k) (pa k) m (r.tables k h)) run,
          one_page k i m (record m { mem = g }) h p r done,
        )
