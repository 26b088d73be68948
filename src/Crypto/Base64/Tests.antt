-- ===== src/Crypto/Base64/Tests.antt =====
-- hj/crypto/base64.hpp: runs, and the theorems at them.
use high_jump.Common.{
  ℕ, ◌+◌, ◌-◌, ◌*◌, ◌/◌, ◌^◌, ◌<◌, none, ltb, ◌==◌, if◌then◌else◌, zero, suc, ap, ◌≤◌, ◌%◌, ◌≡◌,
  ◌↔◌, refl, true, false, some, List, [], ◌∷◌, ◌++◌, length, arith,
}
use high_jump.Crypto.Base64.{encode_len_reserve, in_alphabet, check_loop, is_valid, is_valid_stream}
use high_jump.Crypto.Base64.Shape.{IsShaped, is_valid_iff}
use high_jump.Crypto.Base64.Convert.{
  ok, int_of, written, encode_bytes, encode_string, encode_string_cut,
}
use high_jump.Crypto.Base64.Chunks.{is_valid_stream-append}

-- "QQ==" and "QUJD".
abbrev padded : List ℕ
padded = b'Q' ∷ b'Q' ∷ b'=' ∷ b'=' ∷ []

abbrev full : List ℕ
full = b'Q' ∷ b'U' ∷ b'J' ∷ b'D' ∷ []

whole_refused : is_valid (some (padded ++ full)) ≡ false
unfolding is_valid check_loop in_alphabet
whole_refused = refl

is_valid_iff_example :
    (is_valid (some padded) ≡ true)
    ↔ ((1 ≤ length padded) × (length padded % 4 ≡ 0) × IsShaped padded)
is_valid_iff_example = is_valid_iff padded

-- Chunks of four characters.
is_valid_stream-append_example : is_valid_stream 4 true (padded ++ full) ≡ some true
unfolding is_valid check_loop in_alphabet
is_valid_stream-append_example = is_valid_stream-append 4 padded full refl (omega arith) refl refl

-- Base64 text without line breaks.
letter : ℕ → ℕ
letter n =
    if ltb n 26
    then n + b'A'
    else (if ltb n 52
        then n - 26 + b'a'
        else (if ltb n 62 then n - 52 + b'0' else (if n == 62 then b'+' else b'/')))

to_text : List ℕ → List ℕ
to_text [] = []
to_text (a ∷ []) = letter (a / 4) ∷ letter (a % 4 * 16) ∷ b'=' ∷ b'=' ∷ []
to_text (a ∷ b ∷ []) =
    letter (a / 4) ∷ letter (a % 4 * 16 + b / 16) ∷ letter (b % 16 * 4) ∷ b'=' ∷ []
to_text (a ∷ b ∷ c ∷ s) =
    letter (a / 4)
    ∷ letter (a % 4 * 16 + b / 16)
    ∷ letter (b % 16 * 4 + c / 64)
    ∷ letter (c % 64)
    ∷ to_text s

length-to_text : (s : List ℕ) → length (to_text s) ≡ (length s + 2) / 3 * 4
unfolding to_text
length-to_text [] = omega arith
length-to_text (a ∷ []) = omega arith
length-to_text (a ∷ b ∷ []) = omega arith
length-to_text (a ∷ b ∷ c ∷ s) = omega (arith, length-to_text s)

encode_abcd :
    encode_string true to_text (λ s. none) (b'A' ∷ b'B' ∷ b'C' ∷ b'D' ∷ [])
    ≡ ok (full ++ (b'R' ∷ b'A' ∷ b'=' ∷ b'=' ∷ []))
unfolding encode_string encode_bytes encode_len_reserve written int_of to_text letter
encode_abcd = refl

many : ℕ → List ℕ
many zero = []
many (suc n) = b'A' ∷ many n

length-many : (n : ℕ) → length (many n) ≡ n
unfolding many
length-many zero = refl
length-many (suc n) = ap suc (length-many n)

-- Two gigabytes.
encode_string_cut_example :
    (part : List ℕ) × (rest : List ℕ) × (part ++ rest ≡ many (2 ^ 31))
    × (1 ≤ length rest)
    × (length part < 2 ^ 31)
    × (encode_string true to_text (λ s. none) (many (2 ^ 31)) ≡ ok (to_text part))
encode_string_cut_example =
    encode_string_cut to_text (λ s. none) (many (2 ^ 31)) length-to_text
      (omega (arith, length-many (2 ^ 31)))
