-- ===== src/Encoding/Bytes/Word64.antt =====
-- hj/encoding/bytes.hpp: 64 bits there and back.
use Prim.Native.Nat.{bit_or}
use high_jump.Common.{
  ℕ, zero, suc, ◌+◌, ◌*◌, ◌%◌, ◌^◌, ◌<◌, ◌≤◌, ◌≡◌, refl, ap, ◌∙◌, Bool, true, false, List, [], ◌∷◌,
  if◌then◌else◌, length, drop, take, arith, All,
}
use high_jump.Common.Bits.{zero-or, or_high, or_comm}
use high_jump.Encoding.Bytes.{
  shift_left, offset, load_loop, store_loop, bytes_to_int64, int64_to_bytes, byte_of,
}
use high_jump.Encoding.Bytes.Value.{IsByte, byte_of64, big_value, little_value}

-- A byte put above what is there.
low_or :
    (k b n : ℕ) → n < 2 ^ k → b * 2 ^ k < 2 ^ 64 → bit_or n (b * 2 ^ k % 2 ^ 64) ≡ b * 2 ^ k + n
low_or k b n h fits =
    let e : b * 2 ^ k % 2 ^ 64 ≡ b * 2 ^ k = omega arith in
    or_comm n (b * 2 ^ k % 2 ^ 64) ∙ or_high k b (b * 2 ^ k % 2 ^ 64) n e h ∙ omega arith

load_big :
    (a0 a1 a2 a3 a4 a5 a6 a7 : ℕ)
    → a0 < 256
    → a1 < 256
    → a2 < 256
    → a3 < 256
    → a4 < 256
    → a5 < 256
    → a6 < 256
    → a7 < 256
    → load_loop true 0 0 (a0 ∷ a1 ∷ a2 ∷ a3 ∷ a4 ∷ a5 ∷ a6 ∷ a7 ∷ [])
      ≡ big_value 0 (a0 ∷ a1 ∷ a2 ∷ a3 ∷ a4 ∷ a5 ∷ a6 ∷ a7 ∷ [])
unfolding load_loop shift_left offset big_value
load_big a0 a1 a2 a3 a4 a5 a6 a7 h0 h1 h2 h3 h4 h5 h6 h7 =
    let n1 : ℕ = bit_or 0 (a0 * 2 ^ 56 % 2 ^ 64) in
    let n2 : ℕ = bit_or n1 (a1 * 2 ^ 48 % 2 ^ 64) in
    let n3 : ℕ = bit_or n2 (a2 * 2 ^ 40 % 2 ^ 64) in
    let n4 : ℕ = bit_or n3 (a3 * 2 ^ 32 % 2 ^ 64) in
    let n5 : ℕ = bit_or n4 (a4 * 2 ^ 24 % 2 ^ 64) in
    let n6 : ℕ = bit_or n5 (a5 * 2 ^ 16 % 2 ^ 64) in
    let n7 : ℕ = bit_or n6 (a6 * 2 ^ 8 % 2 ^ 64) in
    let e1 : n1 ≡ a0 * 2 ^ 56 = omega (arith, zero-or (a0 * 2 ^ 56 % 2 ^ 64)) in
    let e2 : n2 ≡ (a0 * 256 + a1) * 2 ^ 48 =
      omega (arith, or_high 56 a0 n1 (a1 * 2 ^ 48 % 2 ^ 64) e1 (omega arith)) in
    let e3 : n3 ≡ ((a0 * 256 + a1) * 256 + a2) * 2 ^ 40 =
      omega (arith, or_high 48 (a0 * 256 + a1) n2 (a2 * 2 ^ 40 % 2 ^ 64) e2 (omega arith)) in
    let e4 : n4 ≡ (((a0 * 256 + a1) * 256 + a2) * 256 + a3) * 2 ^ 32 =
      omega (
        arith,
        or_high 40 ((a0 * 256 + a1) * 256 + a2) n3 (a3 * 2 ^ 32 % 2 ^ 64) e3 (omega arith),
      ) in
    let e5 : n5 ≡ ((((a0 * 256 + a1) * 256 + a2) * 256 + a3) * 256 + a4) * 2 ^ 24 = omega (
      arith,
      or_high 32 (((a0 * 256 + a1) * 256 + a2) * 256 + a3) n4 (a4 * 2 ^ 24 % 2 ^ 64) e4
          (omega arith),
    ) in
    let e6 : n6 ≡ (((((a0 * 256 + a1) * 256 + a2) * 256 + a3) * 256 + a4) * 256 + a5) * 2 ^ 16 =
      omega (
        arith,
        or_high 24 ((((a0 * 256 + a1) * 256 + a2) * 256 + a3) * 256 + a4) n5 (a5 * 2 ^ 16 % 2 ^ 64)
            e5 (omega arith),
      ) in
    let e7 : n7
        ≡ ((((((a0 * 256 + a1) * 256 + a2) * 256 + a3) * 256 + a4) * 256 + a5) * 256 + a6) * 2 ^ 8 =
      omega (
        arith,
        or_high 16 (((((a0 * 256 + a1) * 256 + a2) * 256 + a3) * 256 + a4) * 256 + a5) n6
            (a6 * 2 ^ 8 % 2 ^ 64) e6 (omega arith),
      ) in
    omega (
      arith,
      or_high 8 ((((((a0 * 256 + a1) * 256 + a2) * 256 + a3) * 256 + a4) * 256 + a5) * 256 + a6) n7
          (a7 * 2 ^ 0 % 2 ^ 64) e7 (omega arith),
    )

load_little :
    (a0 a1 a2 a3 a4 a5 a6 a7 : ℕ)
    → a0 < 256
    → a1 < 256
    → a2 < 256
    → a3 < 256
    → a4 < 256
    → a5 < 256
    → a6 < 256
    → a7 < 256
    → load_loop false 0 0 (a0 ∷ a1 ∷ a2 ∷ a3 ∷ a4 ∷ a5 ∷ a6 ∷ a7 ∷ [])
      ≡ little_value (a0 ∷ a1 ∷ a2 ∷ a3 ∷ a4 ∷ a5 ∷ a6 ∷ a7 ∷ [])
unfolding load_loop shift_left offset little_value
load_little a0 a1 a2 a3 a4 a5 a6 a7 h0 h1 h2 h3 h4 h5 h6 h7 =
    let n1 : ℕ = bit_or 0 (a0 * 2 ^ 0 % 2 ^ 64) in
    let n2 : ℕ = bit_or n1 (a1 * 2 ^ 8 % 2 ^ 64) in
    let n3 : ℕ = bit_or n2 (a2 * 2 ^ 16 % 2 ^ 64) in
    let n4 : ℕ = bit_or n3 (a3 * 2 ^ 24 % 2 ^ 64) in
    let n5 : ℕ = bit_or n4 (a4 * 2 ^ 32 % 2 ^ 64) in
    let n6 : ℕ = bit_or n5 (a5 * 2 ^ 40 % 2 ^ 64) in
    let n7 : ℕ = bit_or n6 (a6 * 2 ^ 48 % 2 ^ 64) in
    let e1 : n1 ≡ a0 = omega (arith, zero-or (a0 * 2 ^ 0 % 2 ^ 64)) in
    let e2 : n2 ≡ a0 + a1 * 2 ^ 8 = omega (arith, low_or 8 a1 n1 (omega arith) (omega arith)) in
    let e3 : n3 ≡ a0 + a1 * 2 ^ 8 + a2 * 2 ^ 16 =
      omega (arith, low_or 16 a2 n2 (omega arith) (omega arith)) in
    let e4 : n4 ≡ a0 + a1 * 2 ^ 8 + a2 * 2 ^ 16 + a3 * 2 ^ 24 =
      omega (arith, low_or 24 a3 n3 (omega arith) (omega arith)) in
    let e5 : n5 ≡ a0 + a1 * 2 ^ 8 + a2 * 2 ^ 16 + a3 * 2 ^ 24 + a4 * 2 ^ 32 =
      omega (arith, low_or 32 a4 n4 (omega arith) (omega arith)) in
    let e6 : n6 ≡ a0 + a1 * 2 ^ 8 + a2 * 2 ^ 16 + a3 * 2 ^ 24 + a4 * 2 ^ 32 + a5 * 2 ^ 40 =
      omega (arith, low_or 40 a5 n5 (omega arith) (omega arith)) in
    let e7 : n7
        ≡ a0 + a1 * 2 ^ 8 + a2 * 2 ^ 16 + a3 * 2 ^ 24 + a4 * 2 ^ 32 + a5 * 2 ^ 40 + a6 * 2 ^ 48 =
      omega (arith, low_or 48 a6 n6 (omega arith) (omega arith)) in
    omega (arith, low_or 56 a7 n7 (omega arith) (omega arith))

-- The bytes that are stored, from byte `i` on.
stored : Bool → ℕ → ℕ → ℕ → List ℕ
stored big_endian n i zero = []
stored big_endian n i (suc left) =
    byte_of 64 (offset big_endian i) n ∷ stored big_endian n (suc i) left

take-store_loop :
    (big_endian : Bool) (n i left : ℕ) (bytes : List ℕ)
    → left ≤ length bytes
    → take left (store_loop big_endian n i left bytes) ≡ stored big_endian n i left
unfolding store_loop stored
take-store_loop big_endian n i zero bytes h = refl
take-store_loop big_endian n i (suc left) [] h = absurd (omega arith)
take-store_loop big_endian n i (suc left) (b ∷ bytes) h =
    ap (◌∷◌ (byte_of 64 (offset big_endian i) n))
      (take-store_loop big_endian n (suc i) left bytes (omega arith))

drop-store_loop :
    (big_endian : Bool) (n i left : ℕ) (bytes : List ℕ)
    → drop left (store_loop big_endian n i left bytes) ≡ drop left bytes
unfolding store_loop
drop-store_loop big_endian n i zero bytes = refl
drop-store_loop big_endian n i (suc left) [] = refl
drop-store_loop big_endian n i (suc left) (b ∷ bytes) =
    drop-store_loop big_endian n (suc i) left bytes

digit64 : (n j : ℕ) → n < 2 ^ 64 → j < 8 → byte_of 64 (8 * j) n < 256
digit64 n j h k = omega (arith, byte_of64 n j h k)

load-stored :
    (big_endian : Bool) (n : ℕ)
    → n < 2 ^ 64
    → load_loop big_endian 0 0 (stored big_endian n 0 8) ≡ n
unfolding stored offset big_value little_value
load-stored true n h =
    load_big (byte_of 64 56 n) (byte_of 64 48 n) (byte_of 64 40 n) (byte_of 64 32 n)
      (byte_of 64 24 n) (byte_of 64 16 n) (byte_of 64 8 n) (byte_of 64 0 n)
      (digit64 n 7 h (omega arith)) (digit64 n 6 h (omega arith)) (digit64 n 5 h (omega arith))
      (digit64 n 4 h (omega arith)) (digit64 n 3 h (omega arith)) (digit64 n 2 h (omega arith))
      (digit64 n 1 h (omega arith)) (digit64 n 0 h (omega arith))
    ∙ omega (
      arith,
      byte_of64 n 0 h (omega arith),
      byte_of64 n 1 h (omega arith),
      byte_of64 n 2 h (omega arith),
      byte_of64 n 3 h (omega arith),
      byte_of64 n 4 h (omega arith),
      byte_of64 n 5 h (omega arith),
      byte_of64 n 6 h (omega arith),
      byte_of64 n 7 h (omega arith),
    )
load-stored false n h =
    load_little (byte_of 64 0 n) (byte_of 64 8 n) (byte_of 64 16 n) (byte_of 64 24 n)
      (byte_of 64 32 n) (byte_of 64 40 n) (byte_of 64 48 n) (byte_of 64 56 n)
      (digit64 n 0 h (omega arith)) (digit64 n 1 h (omega arith)) (digit64 n 2 h (omega arith))
      (digit64 n 3 h (omega arith)) (digit64 n 4 h (omega arith)) (digit64 n 5 h (omega arith))
      (digit64 n 6 h (omega arith)) (digit64 n 7 h (omega arith))
    ∙ omega (
      arith,
      byte_of64 n 0 h (omega arith),
      byte_of64 n 1 h (omega arith),
      byte_of64 n 2 h (omega arith),
      byte_of64 n 3 h (omega arith),
      byte_of64 n 4 h (omega arith),
      byte_of64 n 5 h (omega arith),
      byte_of64 n 6 h (omega arith),
      byte_of64 n 7 h (omega arith),
    )

-- An `int64_t` written to a buffer of 8 bytes or more is read back, in both orders of the bytes, and
-- what follows the 8 bytes is as before.
pub bytes_to_int64-int64_to_bytes :
    (bytes : List ℕ) (n : ℕ) (big_endian : Bool)
    → 8 ≤ length bytes
    → n < 2 ^ 64
    → (bytes_to_int64 (int64_to_bytes bytes n big_endian) big_endian ≡ n)
      × (drop 8 (int64_to_bytes bytes n big_endian) ≡ drop 8 bytes)
unfolding bytes_to_int64 int64_to_bytes
bytes_to_int64-int64_to_bytes bytes n big_endian h fits = (
  ap (load_loop big_endian 0 0) (take-store_loop big_endian n 0 8 bytes h)
      ∙ load-stored big_endian n fits,
  drop-store_loop big_endian n 0 8 bytes,
)

-- Eight bytes are read as the number they stand for to the base 256, the first byte the highest or,
-- in the other order, the lowest.
pub bytes_to_int64-value :
    (bytes : List ℕ) (big_endian : Bool)
    → 8 ≤ length bytes
    → All IsByte bytes
    → bytes_to_int64 bytes big_endian
      ≡ (if big_endian then big_value 0 (take 8 bytes) else little_value (take 8 bytes))
unfolding bytes_to_int64
bytes_to_int64-value (a0 ∷ a1 ∷ a2 ∷ a3 ∷ a4 ∷ a5 ∷ a6 ∷ a7 ∷ bytes) true h
      (h0, (h1, (h2, (h3, (h4, (h5, (h6, (h7, hs)))))))) =
    load_big a0 a1 a2 a3 a4 a5 a6 a7 h0 h1 h2 h3 h4 h5 h6 h7
bytes_to_int64-value (a0 ∷ a1 ∷ a2 ∷ a3 ∷ a4 ∷ a5 ∷ a6 ∷ a7 ∷ bytes) false h
      (h0, (h1, (h2, (h3, (h4, (h5, (h6, (h7, hs)))))))) =
    load_little a0 a1 a2 a3 a4 a5 a6 a7 h0 h1 h2 h3 h4 h5 h6 h7
bytes_to_int64-value [] big_endian h hs = absurd (omega arith)
bytes_to_int64-value (a0 ∷ []) big_endian h hs = absurd (omega arith)
bytes_to_int64-value (a0 ∷ a1 ∷ []) big_endian h hs = absurd (omega arith)
bytes_to_int64-value (a0 ∷ a1 ∷ a2 ∷ []) big_endian h hs = absurd (omega arith)
bytes_to_int64-value (a0 ∷ a1 ∷ a2 ∷ a3 ∷ []) big_endian h hs = absurd (omega arith)
bytes_to_int64-value (a0 ∷ a1 ∷ a2 ∷ a3 ∷ a4 ∷ []) big_endian h hs = absurd (omega arith)
bytes_to_int64-value (a0 ∷ a1 ∷ a2 ∷ a3 ∷ a4 ∷ a5 ∷ []) big_endian h hs = absurd (omega arith)
bytes_to_int64-value (a0 ∷ a1 ∷ a2 ∷ a3 ∷ a4 ∷ a5 ∷ a6 ∷ []) big_endian h hs = absurd (omega arith)
