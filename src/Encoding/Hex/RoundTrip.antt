-- ===== src/Encoding/Hex/RoundTrip.antt =====
-- hj/encoding/hex.hpp: `decode` and `encode` of bytes are inverse.
use high_jump.Common.{
  ℕ, ◌+◌, ◌*◌, ◌/◌, ◌%◌, ◌<◌, ◌≡◌, refl, ap, ◌∙◌, Bool, true, false, none, some, List, [], ◌∷◌,
  length, arith, All, map, Option-cases, inl, inr, not, ◌==◌,
}
use high_jump.Encoding.Hex.{
  hex_char_to_value, is_hex, is_digit, keep_hex, pad_even, digit_char, decode_pairs, decode, encode,
  all_digits, is_valid,
}
use high_jump.Encoding.Hex.Digits.{
  value-digit_char, is_hex-digit_char, is_digit-is_hex, join_nibbles_lem, encode_byte, value_bound,
}

abbrev pub IsByte : ℕ → Type 0
IsByte c = c < 256

pub length-encode :
    (upper : Bool) (s : List ℕ) → All IsByte s → length (encode upper s) ≡ 2 * length s
unfolding encode
length-encode upper [] h = omega arith
length-encode upper (c ∷ s) h =
    rw (encode_byte upper c s h.0) (omega (arith, length-encode upper s h.1))

keep_two :
    (a b : ℕ) (s : List ℕ)
    → is_hex a ≡ true
    → is_hex b ≡ true
    → keep_hex (a ∷ b ∷ s) ≡ a ∷ b ∷ keep_hex s
unfolding keep_hex
keep_two a b s p q = rw (p, q)

keep_hex-encode :
    (upper : Bool) (s : List ℕ) → All IsByte s → keep_hex (encode upper s) ≡ encode upper s
keep_hex-encode upper [] h = unfold encode keep_hex in refl
keep_hex-encode upper (c ∷ s) h = rw (encode_byte upper c s h.0) (
    keep_two _ _ (encode upper s) (is_hex-digit_char upper (c / 16) (omega (arith, h.0)))
      (is_hex-digit_char upper (c % 16) (omega arith))
    ∙ ap (λ t. digit_char upper (c / 16) ∷ digit_char upper (c % 16) ∷ t)
        (keep_hex-encode upper s h.1))

decode_pairs-encode : (upper : Bool) (s : List ℕ) → All IsByte s → decode_pairs (encode upper s) ≡ s
unfolding decode_pairs
decode_pairs-encode upper [] h = unfold encode in refl
decode_pairs-encode upper (c ∷ s) h =
    rw
      (
        encode_byte upper c s h.0,
        value-digit_char upper (c / 16) (omega (arith, h.0)),
        value-digit_char upper (c % 16) (omega arith),
        decode_pairs-encode upper s h.1,
      )
      (join_nibbles_lem (c / 16) (c % 16) s (omega (arith, h.0)) (omega arith)
        ∙ ap (λ d. d ∷ s) (omega arith))

pad_even_lem : (s : List ℕ) → length s % 2 ≡ 0 → pad_even s ≡ s
unfolding pad_even
pad_even_lem s h = ground arith

-- Decoding what was encoded, in either case, gives the bytes back.
pub decode-encode : (upper : Bool) (s : List ℕ) → All IsByte s → decode (encode upper s) ≡ s
unfolding decode
decode-encode upper s h =
    rw
      (
        keep_hex-encode upper s h,
        pad_even_lem (encode upper s) (omega (arith, length-encode upper s h)),
      )
      (decode_pairs-encode upper s h)

-- A digit in the case that `encode` writes.
unfoldable pub recase : Bool → ℕ → ℕ
recase upper c = elim (hex_char_to_value c) [ none ↦ c | some v ↦ digit_char upper v ]

recase-digit :
    (upper : Bool) (c v : ℕ) → hex_char_to_value c ≡ some v → recase upper c ≡ digit_char upper v
unfolding recase
recase-digit upper c v e = rw (e, recase)

digit_value : (c : ℕ) → is_digit c ≡ true → (v : ℕ) × (hex_char_to_value c ≡ some v) × (v < 16)
unfolding is_hex
digit_value c h = elim (Option-cases (hex_char_to_value c)) [
  | inl missing ↦ cc (h, is_digit-is_hex c, not_hex missing)
  | inr (v, e) ↦ (v, e, value_bound c v e)
]
  where
    not_hex : hex_char_to_value c ≡ none → is_hex c ≡ false
    not_hex e = rw (e, is_hex)

keep_digits : (s : List ℕ) → all_digits s ≡ true → keep_hex s ≡ s
unfolding all_digits keep_hex
keep_digits [] h = refl
keep_digits (c ∷ s) h = ground (arith, is_digit-is_hex c, keep_digits s)

encode-decode_pairs :
    (upper : Bool) (s : List ℕ)
    → all_digits s ≡ true
    → length s % 2 ≡ 0
    → encode upper (decode_pairs s) ≡ map (recase upper) s
unfolding all_digits decode_pairs
encode-decode_pairs upper [] h e = unfold encode in refl
encode-decode_pairs upper (a ∷ []) h e = absurd (omega arith)
encode-decode_pairs upper (a ∷ b ∷ s) h e =
    let (v, va, vlt) = digit_value a (ground arith) in
    let (w, wb, wlt) = digit_value b (ground arith) in
    let hi : (v * 16 + w) / 16 ≡ v = omega arith in
    let lo : (v * 16 + w) % 16 ≡ w = omega arith in
    rw (
      va,
      wb,
      join_nibbles_lem v w (decode_pairs s) vlt wlt,
      encode_byte upper (v * 16 + w) (decode_pairs s) (omega arith),
      hi,
      lo,
      encode-decode_pairs upper s (ground arith) (omega arith),
      recase-digit upper a v va,
      recase-digit upper b w wb,
    )

-- Encoding what was decoded from a valid text gives the text back, in the case asked for.
pub encode-decode :
    (upper : Bool) (s : List ℕ) → is_valid s ≡ true → encode upper (decode s) ≡ map (recase upper) s
unfolding is_valid decode
encode-decode upper s h =
    rw (keep_digits s (ground arith), pad_even_lem s (ground arith))
      (encode-decode_pairs upper s (ground arith) (ground arith))

all_digits-encode : (upper : Bool) (s : List ℕ) → All IsByte s → all_digits (encode upper s) ≡ true
unfolding all_digits
all_digits-encode upper [] h = unfold encode in refl
all_digits-encode upper (c ∷ s) h =
    rw
      (
        encode_byte upper c s h.0,
        is_digit-is_hex,
        is_hex-digit_char upper (c / 16) (omega (arith, h.0)),
        is_digit-is_hex (digit_char upper (c % 16)),
        is_hex-digit_char upper (c % 16) (omega arith),
      )
      (all_digits-encode upper s h.1)

-- `is_valid` accepts what `encode` writes, exactly if there was anything to write.
pub is_valid-encode :
    (upper : Bool) (s : List ℕ) → All IsByte s → is_valid (encode upper s) ≡ not (length s == 0)
unfolding is_valid
is_valid-encode upper s h = ground (arith, length-encode upper s h, all_digits-encode upper s h)
