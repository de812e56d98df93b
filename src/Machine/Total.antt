-- ===== src/Machine/Total.antt =====
-- Commands that end, with an invariant kept: one lemma for each way to put commands together.
use xesual.Base.{◌≡◌, refl, ◌∙◌, ap, Bool, true, false, if◌then◌else◌}
use xesual.Machine.{Machine, ok, Cmd, and_then, ◌>>=◌, ◌>>◌, pure, when, skip}

-- From every state with `I`, the command ends in a state with `I`, and its result has `Q`.
abbrev pub Total {ℓ κ μ} :
    {A : Type ℓ} → (Machine → Type κ) → Cmd A → (A → Type μ) → Type (ℓ ⊔ κ ⊔ μ)
Total {A = A} I c Q = (m : Machine) → I m → (a : A) × (m' : Machine) × (c m ≡ ok a m') × I m' × Q a

-- The same for a command without a result.
abbrev pub Ends {κ} : (Machine → Type κ) → Cmd (Unit {0}) → Type κ
Ends I c = (m : Machine) → I m → (m' : Machine) × (c m ≡ ok tt m') × I m'

module _ {κ} {I : Machine → Type κ} where
  pub Total-bind {ℓ ν μ} :
      {A : Type ℓ} {B : Type ν} {Q : A → Type μ} {R : B → Type μ} {c : Cmd A} {k : A → Cmd B}
      → Total I c Q
      → ((a : A) → Q a → Total I (k a) R)
      → Total I (c >>= k) R
  Total-bind {k = k} t u m i =
      let (a, m', e, i', q) = t m i in
      let (b, m'', e', i'', r) = u a q m' i' in (b, m'', ap (λ r. and_then r k) e ∙ e', i'', r)

  pub Ends-bind {ℓ μ} :
      {A : Type ℓ} {Q : A → Type μ} {c : Cmd A} {k : A → Cmd (Unit {0})}
      → Total I c Q
      → ((a : A) → Q a → Ends I (k a))
      → Ends I (c >>= k)
  Ends-bind {k = k} t u m i =
      let (a, m', e, i', q) = t m i in
      let (m'', e', i'') = u a q m' i' in (m'', ap (λ r. and_then r k) e ∙ e', i'')

  pub Ends-then : {c d : Cmd (Unit {0})} → Ends I c → Ends I d → Ends I (c >> d)
  Ends-then {d = d} t u m i =
      let (m', e, i') = t m i in
      let (m'', e', i'') = u m' i' in (m'', ap (λ r. and_then r (λ _. d)) e ∙ e', i'')

  pub Ends-skip : Ends I skip
  Ends-skip m i = (m, refl, i)

  pub Ends-when : {c : Cmd (Unit {0})} (b : Bool) → (b ≡ true → Ends I c) → Ends I (when b c)
  Ends-when true t = t refl
  Ends-when false t = Ends-skip

  pub Ends-if :
      {c d : Cmd (Unit {0})} (b : Bool)
      → (b ≡ true → Ends I c)
      → (b ≡ false → Ends I d)
      → Ends I (if b then c else d)
  Ends-if true t u = t refl
  Ends-if false t u = u refl

  pub Total-pure {ℓ μ} : {A : Type ℓ} {Q : A → Type μ} (a : A) → Q a → Total I (pure a) Q
  Total-pure a q m i = (a, m, refl, i, q)

  pub Total-then {ℓ μ} :
      {A : Type ℓ} {Q : A → Type μ} {c : Cmd (Unit {0})} {d : Cmd A}
      → Ends I c
      → Total I d Q
      → Total I (c >> d) Q
  Total-then {d = d} t u m i =
      let (m', e, i') = t m i in
      let (a, m'', e', i'', q) = u m' i' in (a, m'', ap (λ r. and_then r (λ _. d)) e ∙ e', i'', q)

  pub Total-if {ℓ μ} :
      {A : Type ℓ} {Q : A → Type μ} {c d : Cmd A} (b : Bool)
      → Total I c Q
      → Total I d Q
      → Total I (if b then c else d) Q
  Total-if true t u = t
  Total-if false t u = u
