-- ===== src/Encoding/Utf8/Tests.antt =====
-- hj/encoding/utf8.hpp: runs, and the theorems at them.
use high_jump.Common.{◌<◌, ◌≡◌, refl, true, false, inl, inr, [], ◌∷◌, arith}
use high_jump.Encoding.Utf8.{is_valid, valid_loop, next_char, three_bytes, is_bad_tail, code_point3}
use high_jump.Encoding.Utf8.Scalars.{text, is_valid-text, overlong_accepted}

-- A surrogate, a cut character, and a lone tail byte.
surrogate_refused : is_valid (0xed ∷ 0xa0 ∷ 0x80 ∷ []) ≡ false
unfolding is_valid valid_loop next_char three_bytes is_bad_tail code_point3
surrogate_refused = refl

cut_refused : is_valid (b'a' ∷ 0xe4 ∷ 0xb8 ∷ []) ≡ false
unfolding is_valid valid_loop next_char three_bytes is_bad_tail code_point3
cut_refused = refl

is_valid-text_example : is_valid (text (0x24 ∷ 0xe9 ∷ 0x20ac ∷ 0x1f600 ∷ [])) ≡ true
is_valid-text_example = is_valid-text (0x24 ∷ 0xe9 ∷ 0x20ac ∷ 0x1f600 ∷ []) (
  inl (omega arith),
  (inl (omega arith), (inl (omega arith), (inr (omega arith, omega arith), tt))),
)

-- The slash, in three and in four bytes.
overlong_accepted_example :
    (b'/' < 0x800 → is_valid (0xe0 ∷ 0x80 ∷ 0xaf ∷ []) ≡ true)
    × (is_valid (0xf0 ∷ 0x80 ∷ 0x80 ∷ 0xaf ∷ []) ≡ true)
overlong_accepted_example = overlong_accepted b'/' (omega arith)
