-- ===== src/Pci/Devices/Calls.antt =====
-- Commands that end, having called back for a list of devices: one lemma for each way to put
-- commands together.
use xesual.Base.{
  ℕ, zero, suc, ◌+◌, ◌<◌, ◌≡◌, refl, sym, ap, ◌∙◌, arith, Bool, true, false, if◌then◌else◌, List,
  [], ◌∷◌, ◌++◌,
}
use mathlib.Core.Path.{subst}
use xesual.Machine.{Machine, ok, Cmd, and_then, ◌>>=◌, pure, when, for_loop}
use xesual.Pci.Devices.{gather}

append_assoc : (xs ys zs : List ℕ) → xs ++ ys ++ zs ≡ xs ++ (ys ++ zs)
append_assoc [] ys zs = refl
append_assoc (x ∷ xs) ys zs = ap (λ t. x ∷ t) (append_assoc xs ys zs)

pub append-nil : (xs : List ℕ) → xs ++ [] ≡ xs
append-nil [] = refl
append-nil (x ∷ xs) = ap (λ t. x ∷ t) (append-nil xs)

-- Where `W ds` holds when `ds` has been called back for: the command ends with the result `v`,
-- having called back for `xs`.
pub record Goes {ℓ κ} {A : Type ℓ} (W : List ℕ → Machine → Type κ) (r : Cmd A) (v : A) (xs : List ℕ)
    : Type (ℓ ⊔ κ) where
  pub runs :
      (ds : List ℕ) (m : Machine) → W ds m → (m' : Machine) × (r m ≡ ok v m') × W (ds ++ xs) m'

-- The same, having called back for nothing.
pub record Reads {ℓ κ} {A : Type ℓ} (W : List ℕ → Machine → Type κ) (r : Cmd A) (v : A)
    : Type (ℓ ⊔ κ) where
  pub runs : (ds : List ℕ) (m : Machine) → W ds m → (m' : Machine) × (r m ≡ ok v m') × W ds m'

module _ {κ} {W : List ℕ → Machine → Type κ} where
  pub Goes-read {ℓ μ} :
      {A : Type ℓ} {B : Type μ} {r : Cmd A} (k : A → Cmd B) {v : A} {w : B} {xs : List ℕ}
      → Reads W r v
      → Goes W (k v) w xs
      → Goes W (r >>= k) w xs
  Goes-read k s t = record {
    runs = λ ds m i.
        let (m', e, i') = s.runs ds m i in
        let (m'', e', i'') = t.runs ds m' i' in (m'', ap (λ r. and_then r k) e ∙ e', i'');
  }

  pub Goes-bind {ℓ μ} :
      {A : Type ℓ} {B : Type μ} {r : Cmd A} (k : A → Cmd B) {v : A} {w : B} {xs ys : List ℕ}
      → Goes W r v xs
      → Goes W (k v) w ys
      → Goes W (r >>= k) w (xs ++ ys)
  Goes-bind k {xs = xs} {ys = ys} s t = record {
    runs = λ ds m i.
        let (m', e, i') = s.runs ds m i in
        let (m'', e', i'') = t.runs (ds ++ xs) m' i' in
        (m'', ap (λ r. and_then r k) e ∙ e', subst (λ zs. W zs m'') (append_assoc ds xs ys) i'');
  }

  pub Goes-pure {ℓ} : {A : Type ℓ} (a : A) → Goes W (pure a) a []
  Goes-pure a = record { runs = λ ds m i. (m, refl, subst (λ zs. W zs m) (sym (append-nil ds)) i) }

  pub Goes-when :
      {r : Cmd (Unit {0})} {xs : List ℕ} (b : Bool)
      → (b ≡ true → Goes W r tt xs)
      → Goes W (when b r) tt (if b then xs else [])
  Goes-when true t = t refl
  Goes-when false t = Goes-pure tt

  pub Goes-if {ℓ} :
      {A : Type ℓ} {r s : Cmd A} {v : A} {xs ys : List ℕ} (b : Bool)
      → Goes W r v xs
      → Goes W s v ys
      → Goes W (if b then r else s) v (if b then xs else ys)
  Goes-if true g k = g
  Goes-if false g k = k

  pub Goes-for_loop :
      (count start : ℕ) (body : ℕ → Cmd (Unit {0})) (xs : ℕ → List ℕ)
      → ((i : ℕ) → i < start + count → Goes W (body i) tt (xs i))
      → Goes W (for_loop count start body) tt (gather count start xs)
  unfolding for_loop
  Goes-for_loop zero start body xs t = Goes-pure tt
  Goes-for_loop (suc count) start body xs t =
      Goes-bind _ (t start (omega arith))
        (Goes-for_loop count (suc start) body xs λ i p. t i (omega arith))
