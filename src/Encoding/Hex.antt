-- ===== src/Encoding/Hex.antt =====
-- hj/encoding/hex.hpp: bytes and unsigned integers as hexadecimal text. A character is its code, as
-- an unsigned byte; a stream is the list of its characters.
pub mod Digits
pub mod RoundTrip
pub mod Integral
pub mod Valid
mod Tests
use Prim.Native.Nat.{bit_or}
use mathlib.Core.Option
use high_jump.Common.{
  ℕ, zero, suc, ◌+◌, ◌-◌, ◌*◌, ◌/◌, ◌^◌, ◌%◌, Bool, true, false, not, ◌&&◌, ◌||◌, Option, none,
  some, List, [], ◌∷◌, ◌++◌, ltb, leb, ◌==◌, if◌then◌else◌, length, take, drop,
}

pub in_range : ℕ → ℕ → ℕ → Bool
in_range lo hi c = leb lo c && leb c hi

-- `none` is the -1 of `_hex_char_to_value`.
pub hex_char_to_value : ℕ → Option ℕ
unfolding in_range
hex_char_to_value c =
    if in_range b'0' b'9' c
    then some (c - b'0')
    else (if in_range b'A' b'F' c
        then some (c - b'A' + 10)
        else (if in_range b'a' b'f' c then some (c - b'a' + 10) else none))

pub is_hex : ℕ → Bool
is_hex c = elim (hex_char_to_value c) [ none ↦ false | some v ↦ true ]

-- The first loop of `decode`: other characters are skipped.
pub keep_hex : List ℕ → List ℕ
keep_hex [] = []
keep_hex (c ∷ s) = if is_hex c then c ∷ keep_hex s else keep_hex s

pub pad_even : List ℕ → List ℕ
pad_even s = if (length s % 2) == 0 then s else b'0' ∷ s

-- `(high << 4) | low`, cut to a byte.
pub join_nibbles : Option ℕ → Option ℕ → List ℕ → List ℕ
join_nibbles (some high) (some low) rest = (bit_or (high * 2 ^ 4) low % 256) ∷ rest
join_nibbles (some high) none rest = rest
join_nibbles none low rest = rest

-- `_decode_impl` for strings, vectors and containers; `str[length]` is a null character, no digit.
pub decode_pairs : List ℕ → List ℕ
decode_pairs [] = []
decode_pairs (h ∷ []) = []
decode_pairs (h ∷ l ∷ s) = join_nibbles (hex_char_to_value h) (hex_char_to_value l) (decode_pairs s)

pub decode : List ℕ → List ℕ
decode s = decode_pairs (pad_even (keep_hex s))

-- `_decode_impl` for an unsigned integer of `w` bits.
pub push_digit : ℕ → ℕ → Option ℕ → ℕ
push_digit w result none = result
push_digit w result (some v) = bit_or (result * 2 ^ 4 % 2 ^ w) v

pub decode_digits : ℕ → ℕ → List ℕ → ℕ
decode_digits w result [] = result
decode_digits w result (c ∷ s) = decode_digits w (push_digit w result (hex_char_to_value c)) s

pub decode_integral : ℕ → List ℕ → ℕ
decode_integral w s = decode_digits w 0 (pad_even (keep_hex s))

-- `std::hex` with `std::uppercase` or `std::nouppercase`: the digits of a number, no leading zeros.
-- 16 digits are enough for 64 bits.
pub digit_char : Bool → ℕ → ℕ
digit_char upper d = if ltb d 10 then b'0' + d else (if upper then b'A' else b'a') + d - 10

pub print_digits : ℕ → Bool → ℕ → List ℕ
print_digits zero upper v = []
print_digits (suc fuel) upper v =
    let more = print_digits fuel upper (v / 16) in
    if ltb v 16 then digit_char upper v ∷ [] else more ++ (digit_char upper (v % 16) ∷ [])

pub print_hex : Bool → ℕ → List ℕ
print_hex upper v = print_digits 16 upper v

-- `std::setw(2) << std::setfill('0')`.
pub fill_two : List ℕ → List ℕ
fill_two s = if ltb (length s) 2 then b'0' ∷ s else s

pub encode : Bool → List ℕ → List ℕ
encode upper [] = []
encode upper (c ∷ s) = fill_two (print_hex upper c) ++ encode upper s

-- For an unsigned integer type that is not a character type.
pub encode_integral : Bool → ℕ → List ℕ
encode_integral upper v = print_hex upper v

-- The stream forms: the flags are `good()` of the two streams, and the result is what `out` holds.
pub decode_stream : Bool → Bool → List ℕ → List ℕ → Bool × List ℕ
decode_stream out_good in_good out inp =
    if not out_good || not in_good then (false, out) else (true, out ++ decode inp)

pub encode_stream : Bool → Bool → List ℕ → List ℕ → Bool → Bool × List ℕ
encode_stream out_good in_good out inp upper =
    if not out_good || not in_good then (false, out) else (true, out ++ encode upper inp)

-- The test of the loops of `is_valid`; texts have fewer than 2 ^ 31 characters, since its counter is an
-- `int`.
pub is_digit : ℕ → Bool
unfolding in_range
is_digit c = in_range b'0' b'9' c || in_range b'a' b'f' c || in_range b'A' b'F' c

pub all_digits : List ℕ → Bool
all_digits [] = true
all_digits (c ∷ s) = if not (is_digit c) then false else all_digits s

pub is_valid : List ℕ → Bool
is_valid s =
    if length s == 0 then false else (if not ((length s % 2) == 0) then false else all_digits s)

-- The loop of `is_valid(ifstream)`, which reads `buf_sz` characters at a time; `none`: no fuel left.
-- The result is the verdict of the loop with the number of characters read.
pub check_chunks : ℕ → ℕ → List ℕ → ℕ → Option (Bool × ℕ)
check_chunks fuel buf_sz [] total = some (true, total)
check_chunks zero buf_sz (c ∷ s) total = none
check_chunks (suc fuel) buf_sz (c ∷ s) total =
    let chunk = take buf_sz (c ∷ s) in
    let more = check_chunks fuel buf_sz (drop buf_sz (c ∷ s)) (total + length chunk) in
    if not (all_digits chunk) then some (false, total + length chunk) else more

pub verdict : Bool × ℕ → Bool
verdict (ok, total) =
    if not ok then false else (if (total == 0) || not ((total % 2) == 0) then false else true)

-- A round takes a character at least, so as many rounds as characters are enough.
pub is_valid_stream : ℕ → Bool → List ℕ → Option Bool
is_valid_stream buf_sz is_open s =
    if not is_open then some false else Option.map verdict (check_chunks (length s) buf_sz s 0)
