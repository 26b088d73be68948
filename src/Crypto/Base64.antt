-- ===== src/Crypto/Base64.antt =====
-- hj/crypto/base64.hpp: the check of base64 text, whole and in chunks, and the sizes that the
-- conversions reserve. The conversions themselves are OpenSSL's.
pub mod Shape
pub mod Chunks
pub mod Convert
mod Tests
use high_jump.Common.{
  ℕ, zero, suc, ◌+◌, ◌-◌, ◌*◌, ◌/◌, ◌%◌, Bool, true, false, not, ◌&&◌, ◌||◌, Option, none, some,
  List, [], ◌∷◌, ltb, leb, ◌==◌, if◌then◌else◌, length, take, drop,
}

-- The first test of the loop of `is_valid`. A code above 127 is a negative `char`, and fails it too.
pub in_alphabet : ℕ → Bool
in_alphabet c =
    (leb b'A' c && leb c b'Z')
    || (leb b'a' c && leb c b'z')
    || (leb b'0' c && leb c b'9')
    || (c == b'+')
    || (c == b'/')

-- The loop, for the characters from `i` on.
pub check_loop : ℕ → ℕ → ℕ → List ℕ → Bool
check_loop len i pad [] = true
check_loop len i pad (c ∷ s) =
    let plain = check_loop len (suc i) pad s in
    let padded = check_loop len (suc i) (suc pad) s in
    if in_alphabet c
    then (if ltb 0 pad then false else plain)
    else (if c == b'='
        then (if ltb 2 (suc pad) then false else (if ltb i (len - 2) then false else padded))
        else false)

-- `none` is the null pointer; a buffer has `len` characters.
pub is_valid : Option (List ℕ) → Bool
is_valid none = false
is_valid (some s) =
    if length s == 0
    then false
    else (if not (length s % 4 == 0) then false else check_loop (length s) 0 0 s)

-- The loop of `is_valid(ifstream)`: the verdict with the number of characters read.
pub check_chunks : ℕ → ℕ → List ℕ → ℕ → Option (Bool × ℕ)
check_chunks fuel buf_sz [] total = some (true, total)
check_chunks zero buf_sz (c ∷ s) total = none
check_chunks (suc fuel) buf_sz (c ∷ s) total =
    let chunk = take buf_sz (c ∷ s) in
    let more = check_chunks fuel buf_sz (drop buf_sz (c ∷ s)) (total + length chunk) in
    if not (is_valid (some chunk)) then some (false, total + length chunk) else more

pub verdict : Option (Bool × ℕ) → Option Bool
verdict none = none
verdict (some (ok, total)) =
    some (if not ok then false else (if (total == 0) || not (total % 4 == 0) then false else true))

-- `buf_sz` is `BASE64_BUF_SIZE`. A round takes a character at least, so as many rounds as characters
-- are enough.
pub is_valid_stream : ℕ → Bool → List ℕ → Option Bool
is_valid_stream buf_sz is_open s =
    if not is_open then some false else verdict (check_chunks (length s) buf_sz s 0)

pub encode_len_reserve : ℕ → ℕ
encode_len_reserve src_len = (src_len + 2) / 3 * 4

pub decode_len_reserve : ℕ → ℕ
decode_len_reserve src_len = src_len / 4 * 3
