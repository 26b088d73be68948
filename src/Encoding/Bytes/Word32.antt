-- ===== src/Encoding/Bytes/Word32.antt =====
-- hj/encoding/bytes.hpp: 32 bits there and back.
use Prim.Native.Nat.{bit_and, bit_or}
use high_jump.Common.{
  ℕ, ◌+◌, ◌*◌, ◌%◌, ◌^◌, ◌<◌, ◌≤◌, ◌≡◌, refl, Bool, true, false, List, [], ◌∷◌, if◌then◌else◌,
  length, drop, take, arith, All,
}
use high_jump.Common.Bits.{and_mask, zero-or, or_high}
use high_jump.Encoding.Bytes.{shift_left, join_four, bytes_to_int32, int32_to_bytes, byte_of}
use high_jump.Encoding.Bytes.Value.{IsByte, byte_of32, big_value, little_value}

join_four-sum :
    (b3 b2 b1 b0 : ℕ)
    → b3 < 256
    → b2 < 256
    → b1 < 256
    → b0 < 256
    → join_four b3 b2 b1 b0 ≡ b3 * 2 ^ 24 + b2 * 2 ^ 16 + b1 * 2 ^ 8 + b0
unfolding join_four shift_left
join_four-sum b3 b2 b1 b0 h3 h2 h1 h0 =
    let n3 : ℕ = bit_or 0 (b3 * 2 ^ 24 % 2 ^ 32) in
    let n2 : ℕ = bit_or n3 (b2 * 2 ^ 16 % 2 ^ 32) in
    let n1 : ℕ = bit_or n2 (b1 * 2 ^ 8 % 2 ^ 32) in
    let e3 : n3 ≡ b3 * 2 ^ 24 = omega (arith, zero-or (b3 * 2 ^ 24 % 2 ^ 32)) in
    let e2 : n2 ≡ (b3 * 2 ^ 8 + b2) * 2 ^ 16 =
      omega (arith, or_high 24 b3 n3 (b2 * 2 ^ 16 % 2 ^ 32) e3 (omega arith)) in
    let e1 : n1 ≡ (b3 * 2 ^ 16 + b2 * 2 ^ 8 + b1) * 2 ^ 8 =
      omega (arith, or_high 16 (b3 * 2 ^ 8 + b2) n2 (b1 * 2 ^ 8 % 2 ^ 32) e2 (omega arith)) in
    omega (arith, or_high 8 (b3 * 2 ^ 16 + b2 * 2 ^ 8 + b1) n1 b0 e1 (omega arith))

join_four-bytes :
    (n : ℕ)
    → n < 2 ^ 32
    → join_four (byte_of 32 24 n) (byte_of 32 16 n) (byte_of 32 8 n) (bit_and n 0xff) ≡ n
join_four-bytes n h = omega (
  arith,
  byte_of32 n h,
  and_mask 8 n,
  join_four-sum (byte_of 32 24 n) (byte_of 32 16 n) (byte_of 32 8 n) (bit_and n 0xff)
      (omega (arith, byte_of32 n h)) (omega (arith, byte_of32 n h)) (omega (arith, byte_of32 n h))
      (omega (arith, and_mask 8 n)),
)

-- An `int32_t` written to a buffer of 4 bytes or more is read back, in both orders of the bytes, and
-- what follows the 4 bytes is as before.
pub bytes_to_int32-int32_to_bytes :
    (bytes : List ℕ) (n : ℕ) (big_endian : Bool)
    → 4 ≤ length bytes
    → n < 2 ^ 32
    → (bytes_to_int32 (int32_to_bytes bytes n big_endian) big_endian ≡ n)
      × (drop 4 (int32_to_bytes bytes n big_endian) ≡ drop 4 bytes)
unfolding bytes_to_int32 int32_to_bytes
bytes_to_int32-int32_to_bytes (a ∷ b ∷ c ∷ d ∷ bytes) n true h fits = (join_four-bytes n fits, refl)
bytes_to_int32-int32_to_bytes (a ∷ b ∷ c ∷ d ∷ bytes) n false h fits =
    (join_four-bytes n fits, refl)
bytes_to_int32-int32_to_bytes [] n big_endian h fits = absurd (omega arith)
bytes_to_int32-int32_to_bytes (a ∷ []) n big_endian h fits = absurd (omega arith)
bytes_to_int32-int32_to_bytes (a ∷ b ∷ []) n big_endian h fits = absurd (omega arith)
bytes_to_int32-int32_to_bytes (a ∷ b ∷ c ∷ []) n big_endian h fits = absurd (omega arith)

-- Four bytes are read as the number they stand for to the base 256, the first byte the highest or,
-- in the other order, the lowest.
pub bytes_to_int32-value :
    (bytes : List ℕ) (big_endian : Bool)
    → 4 ≤ length bytes
    → All IsByte bytes
    → bytes_to_int32 bytes big_endian
      ≡ (if big_endian then big_value 0 (take 4 bytes) else little_value (take 4 bytes))
unfolding bytes_to_int32 big_value little_value
bytes_to_int32-value (a ∷ b ∷ c ∷ d ∷ bytes) true h (ha, (hb, (hc, (hd, hs)))) =
    omega (arith, join_four-sum a b c d ha hb hc hd)
bytes_to_int32-value (a ∷ b ∷ c ∷ d ∷ bytes) false h (ha, (hb, (hc, (hd, hs)))) =
    omega (arith, join_four-sum d c b a hd hc hb ha)
bytes_to_int32-value [] big_endian h hs = absurd (omega arith)
bytes_to_int32-value (a ∷ []) big_endian h hs = absurd (omega arith)
bytes_to_int32-value (a ∷ b ∷ []) big_endian h hs = absurd (omega arith)
bytes_to_int32-value (a ∷ b ∷ c ∷ []) big_endian h hs = absurd (omega arith)
