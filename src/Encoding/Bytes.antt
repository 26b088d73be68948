-- ===== src/Encoding/Bytes.antt =====
-- hj/encoding/bytes.hpp: integers in a buffer of bytes, high byte first or low byte first. A signed
-- integer is its two's complement pattern of 32 or 64 bits. A form for a container and that for a
-- pointer have one function here; the latter also sets its size argument, to 1, 4 or 8.
pub mod Value
pub mod Word32
pub mod Word64
mod Tests
use Prim.Native.Nat.{bit_and, bit_or}
use high_jump.Common.{
  ℕ, zero, suc, ◌+◌, ◌-◌, ◌*◌, ◌/◌, ◌%◌, ◌^◌, Bool, true, false, List, [], ◌∷◌, ◌++◌, ltb, ◌==◌,
  if◌then◌else◌, length, get_or, set, take, drop, min,
}

pub bytes_to_bool : List ℕ → Bool
bytes_to_bool bytes = bit_and (get_or bytes 0 0) 0x01 == 1

pub bool_to_bytes : List ℕ → Bool → List ℕ
bool_to_bytes bytes b = set bytes 0 (if b then 0x01 else 0x00)

-- `uint32_t(byte) << k`, and `uint64_t(byte) << k`.
pub shift_left : ℕ → ℕ → ℕ → ℕ
shift_left w k byte = byte * 2 ^ k % 2 ^ w

-- `n >> k` for a signed `n` of `w` bits: the sign comes in from the left.
pub shift_right : ℕ → ℕ → ℕ → ℕ
shift_right w k n = if ltb n (2 ^ (w - 1)) then n / 2 ^ k else n / 2 ^ k + (2 ^ w - 2 ^ (w - k))

pub join_four : ℕ → ℕ → ℕ → ℕ → ℕ
join_four b3 b2 b1 b0 =
    bit_or
      (bit_or (bit_or (bit_or 0 (shift_left 32 24 b3)) (shift_left 32 16 b2)) (shift_left 32 8 b1))
      b0

-- The buffer has 4 bytes at least.
pub bytes_to_int32 : List ℕ → Bool → ℕ
bytes_to_int32 bytes big_endian =
    if big_endian
    then join_four (get_or bytes 0 0) (get_or bytes 1 0) (get_or bytes 2 0) (get_or bytes 3 0)
    else join_four (get_or bytes 3 0) (get_or bytes 2 0) (get_or bytes 1 0) (get_or bytes 0 0)

pub byte_of : ℕ → ℕ → ℕ → ℕ
byte_of w k n = bit_and (shift_right w k n) 0xff

pub int32_to_bytes : List ℕ → ℕ → Bool → List ℕ
int32_to_bytes bytes n big_endian =
    if big_endian
    then set (set (set (set bytes 0 (byte_of 32 24 n)) 1 (byte_of 32 16 n)) 2 (byte_of 32 8 n)) 3
        (bit_and n 0xff)
    else set (set (set (set bytes 3 (byte_of 32 24 n)) 2 (byte_of 32 16 n)) 1 (byte_of 32 8 n)) 0
        (bit_and n 0xff)

-- Where byte `i` of an `int64_t` goes.
pub offset : Bool → ℕ → ℕ
offset big_endian i = if big_endian then 56 - 8 * i else 8 * i

-- The loop of `bytes_to_int64`, over the bytes from `i` on.
pub load_loop : Bool → ℕ → ℕ → List ℕ → ℕ
load_loop big_endian i n [] = n
load_loop big_endian i n (b ∷ bytes) =
    load_loop big_endian (suc i) (bit_or n (shift_left 64 (offset big_endian i) b)) bytes

-- The buffer has 8 bytes at least.
pub bytes_to_int64 : List ℕ → Bool → ℕ
bytes_to_int64 bytes big_endian = load_loop big_endian 0 0 (take 8 bytes)

-- The loop of `int64_to_bytes`, over the entries of the buffer from `i` on.
pub store_loop : Bool → ℕ → ℕ → ℕ → List ℕ → List ℕ
store_loop big_endian n i zero bytes = bytes
store_loop big_endian n i (suc left) [] = []
store_loop big_endian n i (suc left) (b ∷ bytes) =
    byte_of 64 (offset big_endian i) n ∷ store_loop big_endian n (suc i) left bytes

pub int64_to_bytes : List ℕ → ℕ → Bool → List ℕ
int64_to_bytes bytes n big_endian = store_loop big_endian n 0 8 bytes

pub bytes_to_string : List ℕ → ℕ → List ℕ
bytes_to_string bytes sz = take sz bytes

-- The form for a container copies what fits; that for a pointer also gives the number of bytes.
pub string_to_bytes : List ℕ → List ℕ → List ℕ × ℕ
string_to_bytes bytes str =
    let n = min (length str) (length bytes) in (take n str ++ drop n bytes, n)
