-- ===== src/Encoding/Utf8/Scalars.antt =====
-- hj/encoding/utf8.hpp: the encodings of code points pass the check.
use high_jump.Common.{
  ℕ, zero, suc, ◌+◌, ◌*◌, ◌/◌, ◌%◌, ◌<◌, ◌≤◌, ◌≡◌, refl, ap, ◌∙◌, ◌⊎◌, inl, inr, Bool, true, false,
  ◌&&◌, ltb, leb, if◌then◌else◌, arith, none, some, List, [], ◌∷◌, ◌++◌, All, length, length-append,
}
use native.Mathlib.Decide.{dec_le}
use high_jump.Encoding.Utf8.{next_char, valid_loop, is_valid}
use high_jump.Encoding.Utf8.Masks.{next_one, next_two, next_three, next_four}

-- The code points that text can have: up to 0x10FFFF, and no surrogates.
abbrev pub IsScalar : ℕ → Type 0
IsScalar p = (p < 0xd800) ⊎ ((0xe000 ≤ p) × (p ≤ 0x10ffff))

abbrev pub two_byte_form : ℕ → List ℕ
two_byte_form p = (0xc0 + p / 64) ∷ (0x80 + p % 64) ∷ []

abbrev pub three_byte_form : ℕ → List ℕ
three_byte_form p = (0xe0 + p / 4096) ∷ (0x80 + p / 64 % 64) ∷ (0x80 + p % 64) ∷ []

abbrev pub four_byte_form : ℕ → List ℕ
four_byte_form p =
    (0xf0 + p / 262144) ∷ (0x80 + p / 4096 % 64) ∷ (0x80 + p / 64 % 64) ∷ (0x80 + p % 64) ∷ []

-- UTF-8: the shortest form that a code point fits.
pub utf8_form : ℕ → List ℕ
utf8_form p =
    if ltb p 0x80
    then p ∷ []
    else (if ltb p 0x800
        then two_byte_form p
        else (if ltb p 0x10000 then three_byte_form p else four_byte_form p))

valid_loop-nil : (fuel : ℕ) → valid_loop fuel [] ≡ true
unfolding valid_loop
valid_loop-nil zero = refl
valid_loop-nil (suc fuel) = refl

round_next :
    (c fuel : ℕ) (s rest : List ℕ)
    → next_char c s ≡ some rest
    → valid_loop (suc fuel) (c ∷ s) ≡ valid_loop fuel rest
unfolding valid_loop
round_next c fuel s rest e =
    ap (λ o. elim o as (λ x. Bool) [ none ↦ false | some r ↦ valid_loop fuel r ]) e

round_one :
    (p fuel : ℕ) (s : List ℕ) → p < 0x80 → valid_loop (suc fuel) ((p ∷ []) ++ s) ≡ valid_loop fuel s
round_one p fuel s h = round_next p fuel s s (next_one p s h)

round_two :
    (p fuel : ℕ) (s : List ℕ)
    → 0x80 ≤ p
    → p < 0x800
    → valid_loop (suc fuel) (two_byte_form p ++ s) ≡ valid_loop fuel s
round_two p fuel s low high =
    let long : ltb (p / 64) 2 ≡ false = ground arith in
    round_next (0xc0 + p / 64) fuel ((0x80 + p % 64) ∷ s) s
      (rw long at (next_two (p / 64) (p % 64) s (omega arith) (omega arith)))

round_three :
    (p fuel : ℕ) (s : List ℕ)
    → (p < 0xd800) ⊎ (0xe000 ≤ p)
    → p < 0x10000
    → valid_loop (suc fuel) (three_byte_form p ++ s) ≡ valid_loop fuel s
round_three p fuel s scalar high =
    let back : p / 4096 * 4096 + p / 64 % 64 * 64 + p % 64 ≡ p = omega arith in
    let plain : (leb 0xd800 p && leb p 0xdfff) ≡ false = ground arith in
    round_next (0xe0 + p / 4096) fuel ((0x80 + p / 64 % 64) ∷ (0x80 + p % 64) ∷ s) s (
      rw (back, plain) at
        (next_three (p / 4096) (p / 64 % 64) (p % 64) s (omega arith) (omega arith) (omega arith)))

round_four :
    (p fuel : ℕ) (s : List ℕ)
    → p ≤ 0x10ffff
    → valid_loop (suc fuel) (four_byte_form p ++ s) ≡ valid_loop fuel s
round_four p fuel s high =
    let back : p / 262144 * 262144 + p / 4096 % 64 * 4096 + p / 64 % 64 * 64 + p % 64 ≡ p =
      omega arith in
    let plain : ltb 0x10ffff p ≡ false = ground arith in
    round_next (0xf0 + p / 262144) fuel
      ((0x80 + p / 4096 % 64) ∷ (0x80 + p / 64 % 64) ∷ (0x80 + p % 64) ∷ s) s
      (rw (back, plain) at
        (next_four (p / 262144) (p / 4096 % 64) (p / 64 % 64) (p % 64) s (omega arith) (omega arith)
          (omega arith) (omega arith)))

IsScalar-range : (p : ℕ) → IsScalar p → ((p < 0xd800) ⊎ (0xe000 ≤ p)) × (p ≤ 0x10ffff)
IsScalar-range p (inl low) = (inl low, omega arith)
IsScalar-range p (inr (low, high)) = (inr low, high)

-- One round of the loop takes one encoded code point.
round_form :
    (p fuel : ℕ) (s : List ℕ)
    → IsScalar p
    → valid_loop (suc fuel) (utf8_form p ++ s) ≡ valid_loop fuel s
unfolding utf8_form
round_form p fuel s scalar =
    let range = IsScalar-range p scalar in
    elim (dec_le 0x80 p) [
      | no one ↦ let e : ltb p 0x80 ≡ true = ground arith in rw e (round_one p fuel s (omega arith))
      | yes low ↦
          let e : ltb p 0x80 ≡ false = ground arith in
          elim (dec_le 0x800 p) [
            | no two ↦
                let f : ltb p 0x800 ≡ true = ground arith in
                rw (e, f) (round_two p fuel s low (omega arith))
            | yes more ↦
                let f : ltb p 0x800 ≡ false = ground arith in
                elim (dec_le 0x10000 p) [
                  | no three ↦
                      let g : ltb p 0x10000 ≡ true = ground arith in
                      rw (e, f, g) (round_three p fuel s range.0 (omega arith))
                  | yes four ↦
                      let g : ltb p 0x10000 ≡ false = ground arith in
                      rw (e, f, g) (round_four p fuel s range.1)
                ]
          ]
    ]

-- The text of a sequence of code points.
pub text : List ℕ → List ℕ
text [] = []
text (p ∷ ps) = utf8_form p ++ text ps

some_length : (p : ℕ) → 1 ≤ length (utf8_form p)
unfolding utf8_form
some_length p = ground arith

valid_text :
    (ps : List ℕ) (fuel : ℕ)
    → All IsScalar ps
    → length (text ps) ≤ fuel
    → valid_loop fuel (text ps) ≡ true
unfolding text
valid_text [] fuel scalars h = valid_loop-nil fuel
valid_text (p ∷ ps) zero scalars h =
    absurd (omega (arith, length-append (utf8_form p) (text ps), some_length p))
valid_text (p ∷ ps) (suc fuel) (scalar, scalars) h =
    round_form p fuel (text ps) scalar
    ∙ valid_text ps fuel scalars
        (omega (arith, length-append (utf8_form p) (text ps), some_length p))

-- The text of every sequence of code points, each up to 0x10FFFF and no surrogate, is valid: the check
-- ends and accepts it.
pub is_valid-text : (ps : List ℕ) → All IsScalar ps → is_valid (text ps) ≡ true
unfolding is_valid
is_valid-text ps scalars = valid_text ps (length (text ps)) scalars (omega arith)

-- Every code point below 0x800 is accepted in a form of three bytes, and every one below 0x10000 in one
-- of four bytes, surrogates included, where UTF-8 has shorter forms or none.
pub overlong_accepted :
    (p : ℕ)
    → p < 0x10000
    → (p < 0x800 → is_valid (three_byte_form p) ≡ true) × (is_valid (four_byte_form p) ≡ true)
unfolding is_valid
overlong_accepted p h = (
  λ low. round_three p 2 [] (inl (omega arith)) (omega arith) ∙ valid_loop-nil 2,
  round_four p 3 [] (omega arith) ∙ valid_loop-nil 3,
)
