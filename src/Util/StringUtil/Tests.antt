-- ===== src/Util/StringUtil/Tests.antt =====
-- hj/util/string_util.hpp: runs, and the theorems at them.
use high_jump.Common.{◌≡◌, refl, [], ◌∷◌}
use high_jump.Util.StringUtil.{
  equal_text, starts_with, find, nonempty, split_loop, split, replace_loop, replace_all, is_target,
  trim_left, keep_end, trim_right, trim,
}

-- ",a,,b" at commas: empty parts are left out.
split_commas :
    split (b',' ∷ b'a' ∷ b',' ∷ b',' ∷ b'b' ∷ []) (b',' ∷ []) ≡ (b'a' ∷ []) ∷ (b'b' ∷ []) ∷ []
unfolding split split_loop find starts_with equal_text nonempty
split_commas = refl

-- "aaa" with "aa" replaced by "b".
replace_first :
    replace_all (b'a' ∷ b'a' ∷ b'a' ∷ []) (b'a' ∷ b'a' ∷ []) (b'b' ∷ []) ≡ b'b' ∷ b'a' ∷ []
unfolding replace_all replace_loop find starts_with equal_text
replace_first = refl

trim_blanks : trim (b' ' ∷ []) (b' ' ∷ b'a' ∷ b' ' ∷ b'b' ∷ b' ' ∷ []) ≡ b'a' ∷ b' ' ∷ b'b' ∷ []
unfolding trim trim_left trim_right keep_end is_target
trim_blanks = refl
