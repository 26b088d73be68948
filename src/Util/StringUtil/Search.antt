-- ===== src/Util/StringUtil/Search.antt =====
-- hj/util/string_util.hpp: what the searches find.
use high_jump.Common.{
  ℕ, ◌≡◌, refl, sym, ap, ◌∙◌, ◌↔◌, true, List, [], ◌∷◌, ◌++◌, leb, ◌==◌, ==_iff, length,
  length-append, take, drop, take-append-drop, arith,
}
use high_jump.Util.StringUtil.{equal_text, starts_with}

equal_text_refl : (s : List ℕ) → equal_text s s ≡ true
unfolding equal_text
equal_text_refl [] = refl
equal_text_refl (c ∷ s) =
    let same : (c == c) ≡ true = (==_iff c c).1 refl in rw same (equal_text_refl s)

equal_text-same : (s t : List ℕ) → equal_text s t ≡ true → s ≡ t
unfolding equal_text
equal_text-same [] [] e = refl
equal_text-same [] (d ∷ t) e = ground (arith, e)
equal_text-same (c ∷ s) [] e = ground (arith, e)
equal_text-same (c ∷ s) (d ∷ t) e =
    let head : c ≡ d = ground arith in
    let tail : s ≡ t = equal_text-same s t (ground arith) in rw (head, tail) refl

starts_with-split :
    (src prefix : List ℕ) → starts_with src prefix ≡ true → prefix ++ drop (length prefix) src ≡ src
unfolding starts_with
starts_with-split src prefix e =
    let same : take (length prefix) src ≡ prefix =
      equal_text-same (take (length prefix) src) prefix (ground arith) in
    ap (λ t. t ++ drop (length prefix) src) (sym same) ∙ take-append-drop (length prefix) src

take_prefix : (p r : List ℕ) → take (length p) (p ++ r) ≡ p
take_prefix [] r = refl
take_prefix (c ∷ p) r = ap (◌∷◌ c) (take_prefix p r)

starts_with-append : (p r : List ℕ) → starts_with (p ++ r) p ≡ true
unfolding starts_with
starts_with-append p r =
    let fits : leb (length p) (length (p ++ r)) ≡ true = ground (arith, length-append p r) in
    rw (fits, take_prefix p r) (equal_text_refl p)

-- `starts_with` holds exactly of the texts that are the prefix and something behind it.
pub starts_with_iff :
    (src prefix : List ℕ)
    → (starts_with src prefix ≡ true) ↔ ((rest : List ℕ) × (src ≡ prefix ++ rest))
starts_with_iff src prefix = (
  λ e. (drop (length prefix) src, sym (starts_with-split src prefix e)),
  λ (rest, e). ap (λ s. starts_with s prefix) e ∙ starts_with-append prefix rest,
)
