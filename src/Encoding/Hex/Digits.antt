-- ===== src/Encoding/Hex/Digits.antt =====
-- hj/encoding/hex.hpp: one character and one byte.
use high_jump.Common.{
  ℕ, suc, ◌+◌, ◌*◌, ◌/◌, ◌%◌, ◌≤◌, ◌<◌, ◌≡◌, refl, Bool, true, false, some, List, [], ◌∷◌, ◌++◌,
  arith, lt→ltb,
}
use native.Mathlib.Decide.{dec_lt}
use high_jump.Common.Bits.{or_low}
use high_jump.Encoding.Hex.{
  hex_char_to_value, is_hex, is_digit, join_nibbles, digit_char, print_digits, print_hex, fill_two,
  encode,
}

pub value-digit_char :
    (upper : Bool) (v : ℕ) → v < 16 → hex_char_to_value (digit_char upper v) ≡ some v
unfolding hex_char_to_value digit_char
value-digit_char true v h = ground arith
value-digit_char false v h = ground arith

pub is_hex-digit_char : (upper : Bool) (v : ℕ) → v < 16 → is_hex (digit_char upper v) ≡ true
unfolding is_hex
is_hex-digit_char upper v h = rw (value-digit_char upper v h, is_hex)

pub is_digit-is_hex : (c : ℕ) → is_digit c ≡ is_hex c
unfolding is_digit is_hex hex_char_to_value
is_digit-is_hex c = ground arith

pub value_bound : (c v : ℕ) → hex_char_to_value c ≡ some v → v < 16
unfolding hex_char_to_value
value_bound c v h = ground arith

pub join_nibbles_lem :
    (h l : ℕ) (rest : List ℕ)
    → h < 16
    → l < 16
    → join_nibbles (some h) (some l) rest ≡ (h * 16 + l) ∷ rest
unfolding join_nibbles
join_nibbles_lem h l rest p q = ground (arith, or_low 4 h l q)

pub print_low :
    (fuel : ℕ) (upper : Bool) (v : ℕ)
    → v < 16
    → print_digits (suc fuel) upper v ≡ digit_char upper v ∷ []
unfolding print_digits
print_low fuel upper v h = rw (lt→ltb v 16 h)

pub print_high :
    (fuel : ℕ) (upper : Bool) (v : ℕ)
    → 16 ≤ v
    → print_digits (suc fuel) upper v
      ≡ print_digits fuel upper (v / 16) ++ (digit_char upper (v % 16) ∷ [])
unfolding print_digits
print_high fuel upper v h = ground arith

low_byte :
    (upper : Bool) (c : ℕ)
    → c < 16
    → fill_two (print_hex upper c) ≡ digit_char upper (c / 16) ∷ digit_char upper (c % 16) ∷ []
unfolding fill_two print_hex
low_byte upper c h =
    let e : c / 16 ≡ 0 = omega arith in
    let f : c % 16 ≡ c = omega arith in
    rw (print_low 15 upper c h, e, f) (unfold digit_char in refl)

high_byte :
    (upper : Bool) (c : ℕ)
    → 16 ≤ c
    → c < 256
    → fill_two (print_hex upper c) ≡ digit_char upper (c / 16) ∷ digit_char upper (c % 16) ∷ []
unfolding fill_two print_hex
high_byte upper c h k = rw (print_high 15 upper c h, print_low 14 upper (c / 16) (omega arith))

-- A byte is printed as its two digits, the high one first.
pub byte_digits :
    (upper : Bool) (c : ℕ)
    → c < 256
    → fill_two (print_hex upper c) ≡ digit_char upper (c / 16) ∷ digit_char upper (c % 16) ∷ []
byte_digits upper c h = elim (dec_lt c 16) [
  | yes low ↦ low_byte upper c low
  | no high ↦ high_byte upper c (omega arith) h
]

pub encode_byte :
    (upper : Bool) (c : ℕ) (s : List ℕ)
    → c < 256
    → encode upper (c ∷ s) ≡ digit_char upper (c / 16) ∷ digit_char upper (c % 16) ∷ encode upper s
unfolding encode
encode_byte upper c s h = rw (byte_digits upper c h)
