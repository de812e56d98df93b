-- ===== src/Base/Bits.antt =====
-- Laws of `&` and `|` at variables: they act on the low `k` digits and on the rest apart.
use Prim.Native.Nat.{
  ℕ, zero, suc, ◌+◌, ◌-◌, ◌*◌, ◌/◌, ◌%◌, ◌^◌, ◌≤◌, ◌<◌, bit_and, bit_or, min, max, digits,
  bit_and-bitwise, bit_or-bitwise,
}
use mathlib.Core.Path.{◌≡◌, refl, ap}
use native.Mathlib.Omega.{arith}
use native.Mathlib.Nat.{pow-suc, one-le-pow}

-- The digit recursion does not depend on its fuel.
digits_enough :
    (z : ℕ → ℕ) (f : ℕ → ℕ → ℕ) (n m a b : ℕ) → a ≤ n → a ≤ m → digits z f n a b ≡ digits z f m a b
digits_enough z f zero zero a b p q = refl
digits_enough z f (suc n) zero zero b p q = refl
digits_enough z f zero (suc m) zero b p q = refl
digits_enough z f (suc n) (suc m) zero b p q = refl
digits_enough z f zero (suc m) (suc a) b p q = absurd (omega arith)
digits_enough z f (suc n) zero (suc a) b p q = absurd (omega arith)
digits_enough z f (suc n) (suc m) (suc a) b p q =
    ap (λ t. t * 2 + f (suc a % 2) (b % 2))
      (digits_enough z f n m (suc a / 2) (b / 2) (omega arith) (omega arith))

-- One digit of `|` and of `&`.
pub or_digit : (a b : ℕ) → bit_or a b ≡ bit_or (a / 2) (b / 2) * 2 + max (a % 2) (b % 2)
or_digit zero b = simp bit_or-bitwise (omega arith)
or_digit (suc a) b = simp bit_or-bitwise (
    omega (
      arith,
      digits_enough (λ y. y) max a (suc a / 2) (suc a / 2) (b / 2) (omega arith) (omega arith),
    ))

pub and_digit : (a b : ℕ) → bit_and a b ≡ bit_and (a / 2) (b / 2) * 2 + min (a % 2) (b % 2)
and_digit zero b = simp bit_and-bitwise (omega arith)
and_digit (suc a) b = simp bit_and-bitwise (
    omega (
      arith,
      digits_enough (λ y. 0) min a (suc a / 2) (suc a / 2) (b / 2) (omega arith) (omega arith),
    ))

double_pow : (a k : ℕ) → a * 2 ^ suc k ≡ 2 * (a * 2 ^ k)
double_pow a k = omega (arith, ap (λ (t : ℕ). a * t) (pow-suc 2 k))

-- `|` and `&` on the low `k` digits and on the rest.
pub or_split :
    (k a b x y : ℕ)
    → x < 2 ^ k
    → y < 2 ^ k
    → bit_or (a * 2 ^ k + x) (b * 2 ^ k + y) ≡ bit_or a b * 2 ^ k + bit_or x y
or_split zero a b zero zero p q = ground arith
or_split zero a b zero (suc y) p q = absurd (omega arith)
or_split zero a b (suc x) y p q = absurd (omega arith)
or_split (suc k) a b x y p q = ground (
  arith,
  double_pow a k,
  double_pow b k,
  double_pow (bit_or a b) k,
  or_digit (a * 2 ^ suc k + x) (b * 2 ^ suc k + y),
  or_digit x y,
  or_split k a b (x / 2) (y / 2) (omega (arith, pow-suc 2 k)) (omega (arith, pow-suc 2 k)),
)

pub and_split :
    (k a b x y : ℕ)
    → x < 2 ^ k
    → y < 2 ^ k
    → bit_and (a * 2 ^ k + x) (b * 2 ^ k + y) ≡ bit_and a b * 2 ^ k + bit_and x y
and_split zero a b zero zero p q = ground arith
and_split zero a b zero (suc y) p q = absurd (omega arith)
and_split zero a b (suc x) y p q = absurd (omega arith)
and_split (suc k) a b x y p q = ground (
  arith,
  double_pow a k,
  double_pow b k,
  double_pow (bit_and a b) k,
  and_digit (a * 2 ^ suc k + x) (b * 2 ^ suc k + y),
  and_digit x y,
  and_split k a b (x / 2) (y / 2) (omega (arith, pow-suc 2 k)) (omega (arith, pow-suc 2 k)),
)

or_zero_below : (n a : ℕ) → a ≤ n → bit_or a 0 ≡ a
or_zero_below n zero h = refl
or_zero_below zero (suc a) h = absurd (omega arith)
or_zero_below (suc n) (suc a) h =
    omega (arith, or_digit (suc a) 0, or_zero_below n (suc a / 2) (omega arith))

pub or_zero : (a : ℕ) → bit_or a 0 ≡ a
or_zero a = or_zero_below a a (omega arith)

pub zero_or : (a : ℕ) → bit_or 0 a ≡ a
zero_or a = bit_or-bitwise 0 a

pub zero_and : (a : ℕ) → bit_and 0 a ≡ 0
zero_and a = bit_and-bitwise 0 a

and_zero_below : (n a : ℕ) → a ≤ n → bit_and a 0 ≡ 0
and_zero_below n zero h = refl
and_zero_below zero (suc a) h = absurd (omega arith)
and_zero_below (suc n) (suc a) h =
    omega (arith, and_digit (suc a) 0, and_zero_below n (suc a / 2) (omega arith))

pub and_zero : (a : ℕ) → bit_and a 0 ≡ 0
and_zero a = and_zero_below a a (omega arith)

-- `(a << k) | y` is a sum when `y` fits `k` bits, and so is `y | (a << k)`.
pub or_fields : (k a y : ℕ) → y < 2 ^ k → bit_or (a * 2 ^ k) y ≡ a * 2 ^ k + y
or_fields k a y h =
    ground (arith, or_split k a 0 0 y (omega (arith, one-le-pow k 2)) h, or_zero a, zero_or y)

pub fields_or : (k a y : ℕ) → y < 2 ^ k → bit_or y (a * 2 ^ k) ≡ a * 2 ^ k + y
fields_or k a y h =
    ground (arith, or_split k 0 a y 0 h (omega (arith, one-le-pow k 2)), zero_or a, or_zero y)

and_ones : (k x : ℕ) → x < 2 ^ k → bit_and x (2 ^ k - 1) ≡ x
and_ones zero zero h = refl
and_ones zero (suc x) h = absurd (omega arith)
and_ones (suc k) x h = ground (
  arith,
  pow-suc 2 k,
  one-le-pow k 2,
  and_digit x (2 ^ suc k - 1),
  and_ones k (x / 2) (omega (arith, pow-suc 2 k)),
)

-- A mask of `k` low ones is the remainder by `2 ^ k`.
pub and_mask : (k a : ℕ) → bit_and a (2 ^ k - 1) ≡ a % 2 ^ k
and_mask k a = ground (
  arith,
  one-le-pow k 2,
  and_split k (a / 2 ^ k) 0 (a % 2 ^ k) (2 ^ k - 1),
  and_zero (a / 2 ^ k),
  and_ones k (a % 2 ^ k),
)

-- A mask whose `k` low digits are zero clears those digits.
pub and_high_mask : (k a m : ℕ) → bit_and a (m * 2 ^ k) ≡ bit_and (a / 2 ^ k) m * 2 ^ k
and_high_mask k a m =
    ground (arith, one-le-pow k 2, and_split k (a / 2 ^ k) m (a % 2 ^ k) 0, and_zero (a % 2 ^ k))
