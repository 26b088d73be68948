-- ===== src/Encoding/Utf8.antt =====
-- hj/encoding/utf8.hpp: the check of UTF-8 text. A `char` is its unsigned code: the masks read only
-- its 8 bits.
pub mod Masks
pub mod Scalars
mod Tests
use Prim.Native.Nat.{bit_and, bit_or}
use high_jump.Common.{
  ℕ, zero, suc, ◌*◌, ◌^◌, Bool, true, false, not, ◌&&◌, ◌||◌, Option, none, some, List, [], ◌∷◌,
  ltb, leb, ◌==◌, if◌then◌else◌, length,
}

-- `(str[i + k] & 0xC0) != 0x80`.
pub is_bad_tail : ℕ → Bool
is_bad_tail b = not (bit_and b 0xc0 == 0x80)

-- One round after a lead byte: the text behind the character, or `none` for `return false`.
pub two_bytes : ℕ → List ℕ → Option (List ℕ)
two_bytes c [] = none
two_bytes c (b1 ∷ s) =
    if is_bad_tail b1 then none else (if bit_and c 0xfe == 0xc0 then none else some s)

pub code_point3 : ℕ → ℕ → ℕ → ℕ
code_point3 c b1 b2 =
    bit_or (bit_or (bit_and c 0x0f * 2 ^ 12) (bit_and b1 0x3f * 2 ^ 6)) (bit_and b2 0x3f)

pub three_bytes : ℕ → List ℕ → Option (List ℕ)
three_bytes c [] = none
three_bytes c (b1 ∷ []) = none
three_bytes c (b1 ∷ b2 ∷ s) =
    if is_bad_tail b1 || is_bad_tail b2
    then none
    else (if leb 0xd800 (code_point3 c b1 b2) && leb (code_point3 c b1 b2) 0xdfff
        then none
        else some s)

pub code_point4 : ℕ → ℕ → ℕ → ℕ → ℕ
code_point4 c b1 b2 b3 =
    bit_or
      (bit_or (bit_or (bit_and c 0x07 * 2 ^ 18) (bit_and b1 0x3f * 2 ^ 12))
        (bit_and b2 0x3f * 2 ^ 6))
      (bit_and b3 0x3f)

pub four_bytes : ℕ → List ℕ → Option (List ℕ)
four_bytes c [] = none
four_bytes c (b1 ∷ []) = none
four_bytes c (b1 ∷ b2 ∷ []) = none
four_bytes c (b1 ∷ b2 ∷ b3 ∷ s) =
    if is_bad_tail b1 || is_bad_tail b2 || is_bad_tail b3
    then none
    else (if ltb 0x10ffff (code_point4 c b1 b2 b3) then none else some s)

-- One round of the loop, for the text that starts with `c`.
pub next_char : ℕ → List ℕ → Option (List ℕ)
next_char c s =
    if leb c 0x7f
    then some s
    else (if bit_and c 0xe0 == 0xc0
        then two_bytes c s
        else (if bit_and c 0xf0 == 0xe0
            then three_bytes c s
            else (if bit_and c 0xf8 == 0xf0 then four_bytes c s else none)))

-- The loop, on fuel.
pub valid_loop : ℕ → List ℕ → Bool
valid_loop fuel [] = true
valid_loop zero (c ∷ s) = false
valid_loop (suc fuel) (c ∷ s) = elim (next_char c s) [
  | none ↦ false
  | some rest ↦ valid_loop fuel rest
]

-- A round takes a byte at least, so as many rounds as bytes are enough.
pub is_valid : List ℕ → Bool
is_valid s = valid_loop (length s) s
