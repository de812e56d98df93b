-- ===== src/Pci/Devices/Found.antt =====
-- The tests of the scan, and what the loop over the host bridge's functions has found.
use xesual.Base.{
  ℕ, zero, suc, ◌≡◌, refl, arith, Bool, true, false, not, ==_iff, if◌then◌else◌, Option, none, some,
  List, ◌++◌,
}
use xesual.Pci.{box}
use xesual.Pci.Scan.{type_at, Shown}
use xesual.Pci.Devices.{is_there, has_type, only_if, each_bus}
use xesual.Pci.Devices.Calls.{append-nil}

-- What the two tests say.
pub shown :
    (c : ℕ → ℕ) (type : Option ℕ) (device : ℕ)
    → is_there c device ≡ true
    → has_type c type device ≡ true
    → Shown c type device
shown c none device t e = ((λ p. ground arith), tt)
shown c (some t) device h e = ((λ p. ground arith), (==_iff t (type_at c device)).0 e)

-- Whether the loop over the host bridge's functions has scanned a bus.
abbrev pub found : (ℕ → ℕ) → (count func : ℕ) → Bool → Bool
found c zero func hit = hit
found c (suc count) func hit =
    let rest = found c count (suc func) true in if is_there c (box 0 0 func) then rest else hit

same_if : (b r : Bool) → r ≡ true → (if b then r else true) ≡ true
same_if true r e = e
same_if false r e = refl

pub found-true : (c : ℕ → ℕ) (count func : ℕ) → found c count func true ≡ true
found-true c zero func = refl
found-true c (suc count) func =
    same_if (is_there c (box 0 0 func)) (found c count (suc func) true)
      (found-true c count (suc func))

pub settle :
    (c : ℕ → ℕ) (type : Option ℕ) (fuel : ℕ) (b : Bool) (buses every : List ℕ)
    → each_bus c type fuel (only_if b buses) ++ only_if (not (if b then true else false)) every
      ≡ (if b then each_bus c type fuel (only_if b buses) else every)
settle c type fuel true buses every = append-nil (each_bus c type fuel buses)
settle c type fuel false buses every = refl
