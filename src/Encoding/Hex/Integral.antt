-- ===== src/Encoding/Hex/Integral.antt =====
-- hj/encoding/hex.hpp: unsigned integers.
use high_jump.Common.{
  ℕ, zero, suc, ◌+◌, ◌*◌, ◌/◌, ◌%◌, ◌^◌, ◌<◌, ◌≡◌, refl, ◌∙◌, Bool, List, [], ◌∷◌, ◌++◌, length,
  arith, Bool-cases, ◌==◌, inl, inr,
}
use native.Mathlib.Nat.{mod-eq_of_lt, pow-suc}
use native.Mathlib.Decide.{dec_lt}
use high_jump.Common.Bits.{or_low}
use high_jump.Encoding.Hex.{
  in_range, hex_char_to_value, keep_hex, pad_even, digit_char, push_digit, decode_digits,
  decode_integral, print_digits, print_hex, encode_integral,
}
use high_jump.Encoding.Hex.Digits.{value-digit_char, is_hex-digit_char, print_low, print_high}

keep_hex-append : (s t : List ℕ) → keep_hex (s ++ t) ≡ keep_hex s ++ keep_hex t
unfolding keep_hex
keep_hex-append [] t = refl
keep_hex-append (c ∷ s) t = ground (arith, keep_hex-append s t)

decode_digits-append :
    (w r : ℕ) (s t : List ℕ) → decode_digits w r (s ++ t) ≡ decode_digits w (decode_digits w r s) t
unfolding decode_digits
decode_digits-append w r [] t = refl
decode_digits-append w r (c ∷ s) t =
    decode_digits-append w (push_digit w r (hex_char_to_value c)) s t

keep_hex_one :
    (upper : Bool) (v : ℕ) → v < 16 → keep_hex (digit_char upper v ∷ []) ≡ digit_char upper v ∷ []
unfolding keep_hex
keep_hex_one upper v h = rw (is_hex-digit_char upper v h)

keep_hex-print :
    (fuel : ℕ) (upper : Bool) (v : ℕ)
    → keep_hex (print_digits fuel upper v) ≡ print_digits fuel upper v
keep_hex-print zero upper v = unfold print_digits keep_hex in refl
keep_hex-print (suc fuel) upper v = elim (dec_lt v 16) [
  | yes low ↦ rw (print_low fuel upper v low) (keep_hex_one upper v low)
  | no high ↦ rw (
    print_high fuel upper v (omega arith),
    keep_hex-append,
    keep_hex-print fuel upper (v / 16),
    keep_hex_one upper (v % 16) (omega arith),
  )
]

-- One more digit behind a number that leaves room for it.
push_fits :
    (w r : ℕ) (upper : Bool) (d : ℕ)
    → d < 16
    → r * 16 + d < 2 ^ w
    → push_digit w r (hex_char_to_value (digit_char upper d)) ≡ r * 16 + d
unfolding push_digit
push_fits w r upper d h fits =
    rw
      (
        value-digit_char upper d h,
        push_digit,
        mod-eq_of_lt {n = r * 2 ^ 4} {m = 2 ^ w} (omega arith),
      )
      (or_low 4 r d h)

digit_fits :
    (w r : ℕ) (upper : Bool) (d : ℕ)
    → d < 16
    → r * 16 + d < 2 ^ w
    → decode_digits w r (digit_char upper d ∷ []) ≡ r * 16 + d
unfolding decode_digits
digit_fits w r upper d h fits = push_fits w r upper d h fits

one_digit :
    (fuel w : ℕ) (upper : Bool) (v : ℕ)
    → v < 16
    → v < 2 ^ w
    → decode_digits w 0 (print_digits (suc fuel) upper v) ≡ v
one_digit fuel w upper v low h =
    rw (print_low fuel upper v low) (digit_fits w 0 upper v low (omega arith) ∙ omega arith)

decode_digits-print :
    (fuel w : ℕ) (upper : Bool) (v : ℕ)
    → v < 16 ^ suc fuel
    → v < 2 ^ w
    → decode_digits w 0 (print_digits (suc fuel) upper v) ≡ v
decode_digits-print zero w upper v f h = one_digit zero w upper v (omega arith) h
decode_digits-print (suc fuel) w upper v f h = elim (dec_lt v 16) [
  | yes low ↦ one_digit (suc fuel) w upper v low h
  | no high ↦
      rw
        (
          print_high (suc fuel) upper v (omega arith),
          decode_digits-append,
          decode_digits-print fuel w upper (v / 16) (omega (arith, pow-suc 16 (suc fuel)))
              (omega arith),
        )
        (digit_fits w (v / 16) upper (v % 16) (omega arith) (omega arith) ∙ omega arith)
]

leading_zero : (w : ℕ) (s : List ℕ) → decode_digits w 0 (b'0' ∷ s) ≡ decode_digits w 0 s
unfolding decode_digits hex_char_to_value in_range push_digit
leading_zero w s = let e : 0 % 2 ^ w ≡ 0 = omega arith in rw e

decode_zero : (w : ℕ) (s : List ℕ) → decode_digits w 0 (pad_even s) ≡ decode_digits w 0 s
unfolding pad_even
decode_zero w s = elim (Bool-cases ((length s % 2) == 0)) [
  | inl even ↦ rw even
  | inr odd ↦ rw odd (leading_zero w s)
]

-- An unsigned integer of `w` bits, 64 at most, is read back from what was printed, in either case.
pub decode_integral-encode_integral :
    (w : ℕ) (upper : Bool) (v : ℕ)
    → v < 2 ^ w
    → v < 2 ^ 64
    → decode_integral w (encode_integral upper v) ≡ v
unfolding decode_integral encode_integral print_hex
decode_integral-encode_integral w upper v h fits =
    rw (keep_hex-print 16 upper v, decode_zero) (decode_digits-print 15 w upper v (omega arith) h)
