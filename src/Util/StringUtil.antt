-- ===== src/Util/StringUtil.antt =====
-- hj/util/string_util.hpp: search, split, replace and trim, on text as lists of codes. `find` is
-- `std::string_view::find`, for the text from the start position on.
pub mod Search
mod Tests
use mathlib.Core.Option
use high_jump.Common.{
  ℕ, zero, suc, ◌+◌, ◌-◌, Bool, true, false, not, ◌&&◌, ◌||◌, Option, none, some, List, [], ◌∷◌,
  ◌++◌, leb, ltb, ◌==◌, if◌then◌else◌, length, take, drop, min,
}

-- `strncpy_s` into a buffer of `destsz` characters: the error, or what the buffer then starts with, its
-- null character included. `none` is a null pointer; a source ends before its null character.
pub data CopyResult : Type 0 where
  invalid : CopyResult
  copied : List ℕ → CopyResult

pub strncpy_s : Bool → ℕ → Option (List ℕ) → ℕ → CopyResult
strncpy_s is_null destsz none count = invalid
strncpy_s is_null destsz (some src) count =
    let wanted = if ltb count (length src) then count else length src in
    let to_copy = if ltb (destsz - 1) wanted then destsz - 1 else wanted in
    if is_null || (destsz == 0) then invalid else copied (take to_copy src ++ (0 ∷ []))

pub equal_text : List ℕ → List ℕ → Bool
equal_text [] [] = true
equal_text [] (d ∷ t) = false
equal_text (c ∷ s) [] = false
equal_text (c ∷ s) (d ∷ t) = (c == d) && equal_text s t

pub starts_with : List ℕ → List ℕ → Bool
starts_with src prefix =
    leb (length prefix) (length src) && equal_text (take (length prefix) src) prefix

pub ends_with : List ℕ → List ℕ → Bool
ends_with src suffix =
    leb (length suffix) (length src) && equal_text (drop (length src - length suffix) src) suffix

-- The distance to the first place where `sub` stands.
pub find : List ℕ → List ℕ → Option ℕ
find sub [] = if starts_with [] sub then some 0 else none
find sub (c ∷ s) =
    let later = Option.map (λ (k : ℕ). k + 1) (find sub s) in
    if starts_with (c ∷ s) sub then some 0 else later

pub contains : List ℕ → List ℕ → Bool
contains src sub = elim (find sub src) [ none ↦ false | some k ↦ true ]

pub nonempty : List ℕ → List (List ℕ) → List (List ℕ)
nonempty [] parts = parts
nonempty (c ∷ s) parts = (c ∷ s) ∷ parts

-- The loop of `split`, for the text from `start` on. Each round takes a character at least, so as many
-- rounds as characters are enough, and one that finds nothing.
pub split_loop : ℕ → List ℕ → List ℕ → List (List ℕ)
split_loop zero delimiter s = nonempty s []
split_loop (suc fuel) delimiter s = elim (find delimiter s) [
  | none ↦ nonempty s []
  | some k ↦ nonempty (take k s) (split_loop fuel delimiter (drop (k + length delimiter) s))
]

pub split : List ℕ → List ℕ → List (List ℕ)
split str delimiter =
    if (length str == 0) || (length delimiter == 0)
    then str ∷ []
    else split_loop (length str) delimiter str

-- The loop of `replace_all` and `replace_all_inplace`, for the text from `pos` on.
pub replace_loop : ℕ → List ℕ → List ℕ → List ℕ → List ℕ
replace_loop zero from to s = s
replace_loop (suc fuel) from to s = elim (find from s) [
  | none ↦ s
  | some k ↦ take k s ++ to ++ replace_loop fuel from to (drop (k + length from) s)
]

pub replace_all : List ℕ → List ℕ → List ℕ → List ℕ
replace_all str from to = if length from == 0 then str else replace_loop (length str) from to str

pub is_target : List ℕ → ℕ → Bool
is_target [] c = false
is_target (t ∷ target) c = (t == c) || is_target target c

pub trim_left : List ℕ → List ℕ → List ℕ
trim_left target [] = []
trim_left target (c ∷ s) =
    let rest = trim_left target s in if is_target target c then rest else c ∷ s

pub keep_end : List ℕ → ℕ → List ℕ → List ℕ
keep_end target c [] = if is_target target c then [] else c ∷ []
keep_end target c (d ∷ s) = c ∷ d ∷ s

pub trim_right : List ℕ → List ℕ → List ℕ
trim_right target [] = []
trim_right target (c ∷ s) = keep_end target c (trim_right target s)

pub trim : List ℕ → List ℕ → List ℕ
trim target s = trim_left target (trim_right target s)

-- `lower` is `std::tolower` of the current locale.
pub iequal : (ℕ → ℕ) → List ℕ → List ℕ → Bool
iequal lower [] [] = true
iequal lower [] (d ∷ b) = false
iequal lower (c ∷ a) [] = false
iequal lower (c ∷ a) (d ∷ b) = if lower c == lower d then iequal lower a b else false
