-- ===== src/Common/Xor.antt =====
-- `^` at variables: its laws, and what shifts make of it.
use Prim.Native.Nat.{
  ℕ, zero, suc, ◌+◌, ◌*◌, ◌/◌, ◌%◌, ◌^◌, ◌≤◌, ◌<◌, bit_xor, bit_xor-bitwise, differ,
}
use mathlib.Core.Path.{◌≡◌, refl, sym, ap, ◌∙◌}
use mathlib.Core.Logic.{◌⊎◌, inl, inr}
use native.Mathlib.Nat.{
  pow-suc, one-le-pow, div-add-mod', mod-lt, mul-add-div_right, mul-add-mod_self_right,
  div-eq_of_lt, mod-eq_of_lt,
}
use native.Mathlib.Omega.{arith}
use high_jump.Common.Bits.{digits_rest}

bit_cases : (x : ℕ) → x < 2 → (x ≡ 0) ⊎ (x ≡ 1)
bit_cases zero h = inl refl
bit_cases (suc zero) h = inr refl
bit_cases (suc (suc x)) h = absurd (omega arith)

differ_bits : (x y : ℕ) → x < 2 → y < 2 → differ x y ≡ (x + y) % 2
differ_bits zero y p q = omega arith
differ_bits (suc zero) zero p q = refl
differ_bits (suc zero) (suc zero) p q = refl
differ_bits (suc zero) (suc (suc y)) p q = absurd (omega arith)
differ_bits (suc (suc x)) y p q = absurd (omega arith)

pub xor_digit : (a b : ℕ) → bit_xor a b ≡ bit_xor (a / 2) (b / 2) * 2 + (a + b) % 2
xor_digit zero b = omega (arith, bit_xor-bitwise 0 b, bit_xor-bitwise 0 (b / 2))
xor_digit (suc a) b = omega (
  arith,
  bit_xor-bitwise (suc a) b,
  bit_xor-bitwise (suc a / 2) (b / 2),
  digits_rest (λ x. x) differ a (b / 2),
  differ_bits (suc a % 2) (b % 2) (omega arith) (omega arith),
)

pub xor_half : (a b : ℕ) → bit_xor a b / 2 ≡ bit_xor (a / 2) (b / 2)
xor_half a b = omega (arith, xor_digit a b)

pub xor_parity : (a b : ℕ) → bit_xor a b % 2 ≡ (a + b) % 2
xor_parity a b = omega (arith, xor_digit a b)

pub zero-xor : (b : ℕ) → bit_xor 0 b ≡ b
zero-xor b = bit_xor-bitwise 0 b

comm_below : (n a b : ℕ) → a ≤ n → b ≤ n → bit_xor a b ≡ bit_xor b a
comm_below zero zero zero p q = refl
comm_below zero (suc a) b p q = absurd (omega arith)
comm_below zero zero (suc b) p q = absurd (omega arith)
comm_below (suc n) a b p q =
    omega (
      arith,
      xor_digit a b,
      xor_digit b a,
      comm_below n (a / 2) (b / 2) (omega arith) (omega arith),
    )

pub xor_comm : (a b : ℕ) → bit_xor a b ≡ bit_xor b a
xor_comm a b = comm_below (a + b) a b (omega arith) (omega arith)

pub xor-zero : (a : ℕ) → bit_xor a 0 ≡ a
xor-zero a = xor_comm a 0 ∙ zero-xor a

self_below : (n a : ℕ) → a ≤ n → bit_xor a a ≡ 0
self_below zero zero p = refl
self_below zero (suc a) p = absurd (omega arith)
self_below (suc n) a p = omega (arith, xor_digit a a, self_below n (a / 2) (omega arith))

pub xor_self : (a : ℕ) → bit_xor a a ≡ 0
xor_self a = self_below a a (omega arith)

assoc_below :
    (n a b c : ℕ) → a ≤ n → b ≤ n → c ≤ n → bit_xor (bit_xor a b) c ≡ bit_xor a (bit_xor b c)
assoc_below zero zero b c p q r = ap (λ t. bit_xor t c) (zero-xor b) ∙ sym (zero-xor (bit_xor b c))
assoc_below zero (suc a) b c p q r = absurd (omega arith)
assoc_below (suc n) a b c p q r = omega (
  arith,
  xor_digit (bit_xor a b) c,
  xor_digit a (bit_xor b c),
  xor_parity a b,
  xor_parity b c,
  ap (λ t. bit_xor t (c / 2)) (xor_half a b),
  ap (bit_xor (a / 2)) (xor_half b c),
  assoc_below n (a / 2) (b / 2) (c / 2) (omega arith) (omega arith) (omega arith),
)

pub xor_assoc : (a b c : ℕ) → bit_xor (bit_xor a b) c ≡ bit_xor a (bit_xor b c)
xor_assoc a b c = assoc_below (a + b + c) a b c (omega arith) (omega arith) (omega arith)

pub xor_cancel : (a b : ℕ) → bit_xor (bit_xor a b) b ≡ a
xor_cancel a b = xor_assoc a b b ∙ ap (bit_xor a) (xor_self b) ∙ xor-zero a

pub xor_medial :
    (a b c d : ℕ) → bit_xor (bit_xor a b) (bit_xor c d) ≡ bit_xor (bit_xor a c) (bit_xor b d)
xor_medial a b c d =
    xor_assoc a b (bit_xor c d)
    ∙ ap (bit_xor a)
        (sym (xor_assoc b c d) ∙ ap (λ t. bit_xor t d) (xor_comm b c) ∙ xor_assoc c b d)
    ∙ sym (xor_assoc a c (bit_xor b d))

-- The result has no more digits than the numbers.
pub xor_bound : (k a b : ℕ) → a < 2 ^ k → b < 2 ^ k → bit_xor a b < 2 ^ k
xor_bound zero a b p q =
    let e : a ≡ 0 = omega arith in
    let e' : b ≡ 0 = omega arith in rw (e, e') (omega (arith, zero-xor 0))
xor_bound (suc k) a b p q = omega (
  arith,
  xor_digit a b,
  pow-suc 2 k,
  xor_bound k (a / 2) (b / 2) (omega (arith, pow-suc 2 k)) (omega (arith, pow-suc 2 k)),
)

double_pow : (q k : ℕ) → q * 2 ^ suc k ≡ 2 * (q * 2 ^ k)
double_pow q k = omega (arith, ap (λ (t : ℕ). q * t) (pow-suc 2 k))

-- `(q << k) ^ r` is a sum when `r` has `k` bits.
pub xor_low : (k q r : ℕ) → r < 2 ^ k → bit_xor (q * 2 ^ k) r ≡ q * 2 ^ k + r
xor_low zero q r h = let e : r ≡ 0 = omega arith in rw e (omega (arith, xor-zero (q * 1)))
xor_low (suc k) q r h =
    let e : q * 2 ^ suc k / 2 ≡ q * 2 ^ k = omega (arith, double_pow q k) in
    omega (
      arith,
      xor_digit (q * 2 ^ suc k) r,
      double_pow q k,
      ap (λ t. bit_xor t (r / 2)) e,
      xor_low k q (r / 2) (omega (arith, pow-suc 2 k)),
    )

pub xor_scale : (k p q : ℕ) → bit_xor (p * 2 ^ k) (q * 2 ^ k) ≡ bit_xor p q * 2 ^ k
xor_scale zero p q =
    let e : p * 2 ^ 0 ≡ p = omega arith in
    let e' : q * 2 ^ 0 ≡ q = omega arith in rw (e, e') (omega arith)
xor_scale (suc k) p q =
    let e : p * 2 ^ suc k / 2 ≡ p * 2 ^ k = omega (arith, double_pow p k) in
    let e' : q * 2 ^ suc k / 2 ≡ q * 2 ^ k = omega (arith, double_pow q k) in
    let half : bit_xor (p * 2 ^ suc k / 2) (q * 2 ^ suc k / 2) ≡ bit_xor p q * 2 ^ k =
      ap (λ t. bit_xor t (q * 2 ^ suc k / 2)) e ∙ ap (bit_xor (p * 2 ^ k)) e' ∙ xor_scale k p q in
    omega (
      arith,
      xor_digit (p * 2 ^ suc k) (q * 2 ^ suc k),
      double_pow p k,
      double_pow q k,
      double_pow (bit_xor p q) k,
      half,
    )

-- `(p << k | r) ^ (q << k | s)`, for `r` and `s` of `k` bits.
xor_parts :
    (k p q r s : ℕ)
    → r < 2 ^ k
    → s < 2 ^ k
    → bit_xor (p * 2 ^ k + r) (q * 2 ^ k + s) ≡ bit_xor p q * 2 ^ k + bit_xor r s
xor_parts k p q r s f g =
    ap (λ t. bit_xor t (q * 2 ^ k + s)) (sym (xor_low k p r f))
    ∙ ap (bit_xor (bit_xor (p * 2 ^ k) r)) (sym (xor_low k q s g))
    ∙ xor_medial (p * 2 ^ k) r (q * 2 ^ k) s
    ∙ ap (λ t. bit_xor t (bit_xor r s)) (xor_scale k p q)
    ∙ xor_low k (bit_xor p q) (bit_xor r s) (xor_bound k r s f g)

low_bound : (k a : ℕ) → a % 2 ^ k < 2 ^ k
low_bound k a = mod-lt a (one-le-pow k 2 (omega arith))

pub xor_split :
    (k a b : ℕ)
    → bit_xor a b ≡ bit_xor (a / 2 ^ k) (b / 2 ^ k) * 2 ^ k + bit_xor (a % 2 ^ k) (b % 2 ^ k)
xor_split k a b =
    let e : a / 2 ^ k * 2 ^ k + a % 2 ^ k ≡ a = div-add-mod' a (2 ^ k) in
    let e' : b / 2 ^ k * 2 ^ k + b % 2 ^ k ≡ b = div-add-mod' b (2 ^ k) in
    ap (λ t. bit_xor t b) (sym e)
    ∙ ap (bit_xor (a / 2 ^ k * 2 ^ k + a % 2 ^ k)) (sym e')
    ∙ xor_parts k (a / 2 ^ k) (b / 2 ^ k) (a % 2 ^ k) (b % 2 ^ k) (low_bound k a) (low_bound k b)

pub xor_div : (k a b : ℕ) → bit_xor a b / 2 ^ k ≡ bit_xor (a / 2 ^ k) (b / 2 ^ k)
xor_div k a b =
    let r : ℕ = bit_xor (a % 2 ^ k) (b % 2 ^ k) in
    let q : ℕ = bit_xor (a / 2 ^ k) (b / 2 ^ k) in
    ap (λ t. t / 2 ^ k) (xor_split k a b)
    ∙ mul-add-div_right (one-le-pow k 2 (omega arith)) q r
    ∙ ap (◌+◌ q)
        (div-eq_of_lt (xor_bound k (a % 2 ^ k) (b % 2 ^ k) (low_bound k a) (low_bound k b)))
    ∙ omega arith

pub xor_mod : (k a b : ℕ) → bit_xor a b % 2 ^ k ≡ bit_xor (a % 2 ^ k) (b % 2 ^ k)
xor_mod k a b =
    ap (λ t. t % 2 ^ k) (xor_split k a b)
    ∙ mul-add-mod_self_right (bit_xor (a / 2 ^ k) (b / 2 ^ k)) (2 ^ k)
        (bit_xor (a % 2 ^ k) (b % 2 ^ k))
    ∙ mod-eq_of_lt (xor_bound k (a % 2 ^ k) (b % 2 ^ k) (low_bound k a) (low_bound k b))
