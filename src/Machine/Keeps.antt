-- ===== src/Machine/Keeps.antt =====
-- Commands that keep a property of the state, however they end: one lemma for each way to put
-- commands together.
use xesual.Base.{◌≡◌, Bool, true, false, if◌then◌else◌}
use mathlib.Core.Path.{subst}
use xesual.Machine.{
  Machine, Run, ok, fault, hang, out_of_fuel, Cmd, and_then, ◌>>=◌, ◌>>◌, pure, when, get,
}

-- The run ends in a state with `P`, if it ends in a state.
abbrev pub After {ℓ κ} : {A : Type ℓ} → (Machine → Type κ) → Run A → Type κ
After P (ok a m) = P m
After P fault = Unit
After P hang = Unit
After P out_of_fuel = Unit

pub record Keeps {ℓ κ} {A : Type ℓ} (P : Machine → Type κ) (c : Cmd A) : Type κ where
  pub runs : (m : Machine) → P m → After P (c m)

After-and_then {ℓ κ μ} :
    {A : Type ℓ} {B : Type μ} (P : Machine → Type κ) (r : Run A) (k : A → Cmd B)
    → After P r
    → ((a : A) → Keeps P (k a))
    → After P (and_then r k)
After-and_then P (ok a m) k h t = (t a).runs m h
After-and_then P fault k h t = tt
After-and_then P hang k h t = tt
After-and_then P out_of_fuel k h t = tt

-- A test of the state.
pub After-if {ℓ κ} :
    {A : Type ℓ} (P : Machine → Type κ) (b : Bool) (r s : Run A)
    → After P r
    → After P s
    → After P (if b then r else s)
After-if P true r s h k = h
After-if P false r s h k = k

module _ {κ} {P : Machine → Type κ} where
  pub Keeps-bind {ℓ μ} :
      {A : Type ℓ} {B : Type μ} {c : Cmd A} {k : A → Cmd B}
      → Keeps P c
      → ((a : A) → Keeps P (k a))
      → Keeps P (c >>= k)
  Keeps-bind {c = c} {k = k} s t = record { runs = λ m h. After-and_then P (c m) k (s.runs m h) t }

  pub Keeps-then {ℓ} :
      {B : Type ℓ} {c : Cmd (Unit {0})} {d : Cmd B} → Keeps P c → Keeps P d → Keeps P (c >> d)
  Keeps-then s t = Keeps-bind s (λ _. t)

  pub Keeps-pure {ℓ} : {A : Type ℓ} (a : A) → Keeps P (pure a)
  Keeps-pure a = record { runs = λ m h. h }

  pub Keeps-get : Keeps P get
  Keeps-get = record { runs = λ m h. h }

  pub Keeps-when : {c : Cmd (Unit {0})} (b : Bool) → Keeps P c → Keeps P (when b c)
  Keeps-when true t = t
  Keeps-when false t = record { runs = λ m h. h }

  pub Keeps-if {ℓ} :
      {A : Type ℓ} {c d : Cmd A} (b : Bool) → Keeps P c → Keeps P d → Keeps P (if b then c else d)
  Keeps-if true s t = s
  Keeps-if false s t = t

  -- A run that ends in a state ends in one with the property.
  pub kept {ℓ} :
      {A : Type ℓ} {c : Cmd A}
      → Keeps P c
      → (m : Machine) (a : A) (m' : Machine) → P m
      → c m ≡ ok a m'
      → P m'
  kept t m a m' h e = subst (λ r. After P r) e (t.runs m h)
