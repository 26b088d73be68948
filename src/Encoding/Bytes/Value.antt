-- ===== src/Encoding/Bytes/Value.antt =====
-- hj/encoding/bytes.hpp: the number that bytes stand for.
use high_jump.Common.{ℕ, zero, suc, ◌+◌, ◌*◌, ◌/◌, ◌%◌, ◌^◌, ◌<◌, ◌≡◌, List, [], ◌∷◌, arith}
use high_jump.Common.Bits.{and_mask}
use high_jump.Encoding.Bytes.{shift_right, byte_of}

abbrev pub IsByte : ℕ → Type 0
IsByte b = b < 256

-- The sign does not reach the byte that is taken.
pub byte_of32 :
    (n : ℕ)
    → n < 2 ^ 32
    → (byte_of 32 24 n ≡ n / 2 ^ 24)
      × (byte_of 32 16 n ≡ n / 2 ^ 16 % 256)
      × (byte_of 32 8 n ≡ n / 2 ^ 8 % 256)
unfolding byte_of shift_right
byte_of32 n h = (
  ground (arith, and_mask 8 (shift_right 32 24 n)),
  ground (arith, and_mask 8 (shift_right 32 16 n)),
  ground (arith, and_mask 8 (shift_right 32 8 n)),
)

pub byte_of64 : (n j : ℕ) → n < 2 ^ 64 → j < 8 → byte_of 64 (8 * j) n ≡ n / 2 ^ (8 * j) % 256
unfolding byte_of shift_right
byte_of64 n zero h k = ground (arith, and_mask 8 (shift_right 64 0 n))
byte_of64 n (suc zero) h k = ground (arith, and_mask 8 (shift_right 64 8 n))
byte_of64 n (suc (suc zero)) h k = ground (arith, and_mask 8 (shift_right 64 16 n))
byte_of64 n (suc (suc (suc zero))) h k = ground (arith, and_mask 8 (shift_right 64 24 n))
byte_of64 n (suc (suc (suc (suc zero)))) h k = ground (arith, and_mask 8 (shift_right 64 32 n))
byte_of64 n (suc (suc (suc (suc (suc zero))))) h k =
    ground (arith, and_mask 8 (shift_right 64 40 n))
byte_of64 n (suc (suc (suc (suc (suc (suc zero)))))) h k =
    ground (arith, and_mask 8 (shift_right 64 48 n))
byte_of64 n (suc (suc (suc (suc (suc (suc (suc zero))))))) h k =
    ground (arith, and_mask 8 (shift_right 64 56 n))
byte_of64 n (suc (suc (suc (suc (suc (suc (suc (suc j)))))))) h k = absurd (omega arith)

-- The number whose digits to the base 256 are the bytes, the first the highest.
unfoldable pub big_value : ℕ → List ℕ → ℕ
big_value n [] = n
big_value n (b ∷ bytes) = big_value (n * 256 + b) bytes

-- The same, the first the lowest.
unfoldable pub little_value : List ℕ → ℕ
little_value [] = 0
little_value (b ∷ bytes) = b + 256 * little_value bytes
