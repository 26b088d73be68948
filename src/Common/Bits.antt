-- ===== src/Common/Bits.antt =====
-- `|`, `&` and `^` at variables: the law of the lowest digit, and what shifts and masks make of it.
use Prim.Native.Nat.{
  ℕ, zero, suc, ◌+◌, ◌-◌, ◌*◌, ◌/◌, ◌%◌, ◌^◌, ◌≤◌, ◌<◌, min, max, bit_and, bit_or, digits,
  bit_and-bitwise, bit_or-bitwise,
}
use mathlib.Core.Path.{◌≡◌, refl, sym, ap, ◌∙◌}
use mathlib.Core.Bool.{Bool, true, ◌&&◌}
use native.Mathlib.Nat.{pow-suc, one-le-pow, div-div-eq-div-mul}
use native.Mathlib.Omega.{arith}
use high_jump.Common.Tests.{◌==◌, ==_iff}

-- The native operations go digit by digit, on a number of digits to do. More than enough of them
-- changes nothing.
digits_none : (only : ℕ → ℕ) (op : ℕ → ℕ → ℕ) (todo b : ℕ) → digits only op todo 0 b ≡ only b
digits_none only op zero b = refl
digits_none only op (suc todo) b = refl

digits_some :
    (only : ℕ → ℕ) (op : ℕ → ℕ → ℕ) (b todo spare a : ℕ)
    → a ≤ todo
    → digits only op (todo + spare) a b ≡ digits only op todo a b
digits_some only op b todo spare zero h =
    digits_none only op (todo + spare) b ∙ sym (digits_none only op todo b)
digits_some only op b zero spare (suc a) h = absurd (omega arith)
digits_some only op b (suc todo) spare (suc a) h =
    let e : suc todo + spare ≡ suc (todo + spare) = omega arith in
    rw e (
      ap (λ t. t * 2 + op (suc a % 2) (b % 2))
        (digits_some only op (b / 2) todo spare (suc a / 2) (omega arith)))

-- The digits that remain of `suc a` after the lowest one.
pub digits_rest :
    (only : ℕ → ℕ) (op : ℕ → ℕ → ℕ) (a b : ℕ)
    → digits only op a (suc a / 2) b ≡ digits only op (suc a / 2) (suc a / 2) b
digits_rest only op a b =
    let e : suc a / 2 + (a - suc a / 2) ≡ a = omega arith in
    ap (λ t. digits only op t (suc a / 2) b) (sym e)
    ∙ digits_some only op b (suc a / 2) (a - suc a / 2) (suc a / 2) (omega arith)

pub and_digit : (a b : ℕ) → bit_and a b ≡ bit_and (a / 2) (b / 2) * 2 + min (a % 2) (b % 2)
and_digit zero b = omega (arith, bit_and-bitwise 0 b, bit_and-bitwise 0 (b / 2))
and_digit (suc a) b = omega (
  arith,
  bit_and-bitwise (suc a) b,
  bit_and-bitwise (suc a / 2) (b / 2),
  digits_rest (λ x. zero) min a (b / 2),
)

pub or_digit : (a b : ℕ) → bit_or a b ≡ bit_or (a / 2) (b / 2) * 2 + max (a % 2) (b % 2)
or_digit zero b = omega (arith, bit_or-bitwise 0 b, bit_or-bitwise 0 (b / 2))
or_digit (suc a) b = omega (
  arith,
  bit_or-bitwise (suc a) b,
  bit_or-bitwise (suc a / 2) (b / 2),
  digits_rest (λ x. x) max a (b / 2),
)

pub zero-or : (b : ℕ) → bit_or 0 b ≡ b
zero-or b = bit_or-bitwise 0 b

or-zero_below : (n a : ℕ) → a ≤ n → bit_or a 0 ≡ a
or-zero_below n zero h = refl
or-zero_below zero (suc a) h = absurd (omega arith)
or-zero_below (suc n) (suc a) h =
    omega (arith, or_digit (suc a) 0, or-zero_below n (suc a / 2) (omega arith))

pub or-zero : (a : ℕ) → bit_or a 0 ≡ a
or-zero a = or-zero_below a a (omega arith)

and-zero_below : (n a : ℕ) → a ≤ n → bit_and a 0 ≡ 0
and-zero_below n zero h = refl
and-zero_below zero (suc a) h = absurd (omega arith)
and-zero_below (suc n) (suc a) h =
    omega (arith, and_digit (suc a) 0, and-zero_below n (suc a / 2) (omega arith))

double_pow : (q k : ℕ) → q * 2 ^ suc k ≡ 2 * (q * 2 ^ k)
double_pow q k = omega (arith, ap (λ (t : ℕ). q * t) (pow-suc 2 k))

-- `(q << k) | r` is a sum when `r` has `k` bits.
pub or_low : (k q r : ℕ) → r < 2 ^ k → bit_or (q * 2 ^ k) r ≡ q * 2 ^ k + r
or_low zero q r h = ground (arith, or-zero (q * 1))
or_low (suc k) q r h =
    ground (arith, or_digit (q * 2 ^ suc k) r, double_pow q k, or_low k q (r / 2) (omega arith))

and_low : (k q r : ℕ) → r < 2 ^ k → bit_and (q * 2 ^ k + r) (2 ^ k - 1) ≡ r
and_low zero q r h = ground (arith, and-zero_below (q * 1 + r) (q * 1 + r) (omega arith))
and_low (suc k) q r h = ground (
  arith,
  and_digit (q * 2 ^ suc k + r) (2 ^ suc k - 1),
  double_pow q k,
  pow-suc 2 k,
  and_low k q (r / 2) (omega arith),
)

-- `a & (2 ^ k - 1)` keeps the `k` low bits.
pub and_mask : (k a : ℕ) → bit_and a (2 ^ k - 1) ≡ a % 2 ^ k
and_mask k a = ground (arith, one-le-pow k 2, and_low k (a / 2 ^ k) (a % 2 ^ k))

-- A test that holds of every value below a bound, by evaluation.
unfoldable pub all_below : ℕ → (ℕ → Bool) → Bool
all_below zero p = true
all_below (suc n) p = p n && all_below n p

pub all_below_lem : (n : ℕ) (p : ℕ → Bool) (x : ℕ) → all_below n p ≡ true → x < n → p x ≡ true
unfolding all_below
all_below_lem zero p x h lt = absurd (omega arith)
all_below_lem (suc n) p x h lt = ground (arith, all_below_lem n p x)

half_shift : (a k : ℕ) → a / 2 ^ suc k ≡ a / 2 / 2 ^ k
half_shift a k = ap (◌/◌ a) (pow-suc_left k) ∙ sym (div-div-eq-div-mul a 2 (2 ^ k))
  where
    pow-suc_left : (k : ℕ) → 2 ^ suc k ≡ 2 * 2 ^ k
    pow-suc_left k = omega (arith, pow-suc 2 k)

-- The digit of `a | b` at a place, and that of `a & b`.
pub or_place : (k a b : ℕ) → bit_or a b / 2 ^ k % 2 ≡ max (a / 2 ^ k % 2) (b / 2 ^ k % 2)
or_place zero a b = omega (arith, or_digit a b)
or_place (suc k) a b =
    let half : bit_or a b / 2 ≡ bit_or (a / 2) (b / 2) = omega (arith, or_digit a b) in
    rw (half_shift (bit_or a b) k, half_shift a k, half_shift b k, half)
      (or_place k (a / 2) (b / 2))

pub and_place : (k a b : ℕ) → bit_and a b / 2 ^ k % 2 ≡ min (a / 2 ^ k % 2) (b / 2 ^ k % 2)
and_place zero a b = omega (arith, and_digit a b)
and_place (suc k) a b =
    let half : bit_and a b / 2 ≡ bit_and (a / 2) (b / 2) = omega (arith, and_digit a b) in
    rw (half_shift (bit_and a b) k, half_shift a k, half_shift b k, half)
      (and_place k (a / 2) (b / 2))

or_comm_below : (n a b : ℕ) → a ≤ n → b ≤ n → bit_or a b ≡ bit_or b a
or_comm_below zero zero zero p q = refl
or_comm_below zero (suc a) b p q = absurd (omega arith)
or_comm_below zero zero (suc b) p q = absurd (omega arith)
or_comm_below (suc n) a b p q =
    omega (
      arith,
      or_digit a b,
      or_digit b a,
      or_comm_below n (a / 2) (b / 2) (omega arith) (omega arith),
    )

pub or_comm : (a b : ℕ) → bit_or a b ≡ bit_or b a
or_comm a b = or_comm_below (a + b) a b (omega arith) (omega arith)

-- Numbers whose digits do not meet are added.
pub or_high : (k q n r : ℕ) → n ≡ q * 2 ^ k → r < 2 ^ k → bit_or n r ≡ n + r
or_high k q n r e h = rw e (or_low k q r h)

-- Two functions that agree on every number below a bound, by evaluation.
pub equal_below :
    (n : ℕ) (f g : ℕ → ℕ) (x : ℕ) → all_below n (λ y. f y == g y) ≡ true → x < n → f x ≡ g x
equal_below n f g x h lt = (==_iff (f x) (g x)).0 (all_below_lem n (λ y. f y == g y) x h lt)
