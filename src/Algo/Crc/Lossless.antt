-- ===== src/Algo/Crc/Lossless.antt =====
-- hj/algo/crc16.h: the bit-by-bit check sum of given bytes as a function of its start value.
use Prim.Native.Nat.{bit_xor}
use high_jump.Common.{
  ℕ, zero, suc, ◌/◌, ◌%◌, ◌^◌, ◌<◌, ◌≡◌, sym, ap, ◌∙◌, List, [], ◌∷◌, All, if◌then◌else◌, ◌==◌,
  arith,
}
use high_jump.Common.Xor.{zero-xor, xor_bound, xor_cancel, xor_div}
use high_jump.Algo.Crc.Serial.{shift_bit, shift_bits, serial, modbus_poly, IsByte}

-- A bit of the check sum loses nothing: the top bit of the result is the lowest bit before.
shift_bit_top : (x : ℕ) → x < 2 ^ 16 → shift_bit modbus_poly x / 2 ^ 15 ≡ x % 2
unfolding shift_bit
shift_bit_top x a =
    let none_above : x / 2 / 2 ^ 15 ≡ 0 = omega arith in
    let top : (if x % 2 == 1 then modbus_poly else 0) / 2 ^ 15 ≡ x % 2 = ground arith in
    xor_div 15 (x / 2) (if x % 2 == 1 then modbus_poly else 0)
    ∙ ap (λ t. bit_xor t ((if x % 2 == 1 then modbus_poly else 0) / 2 ^ 15)) none_above
    ∙ zero-xor ((if x % 2 == 1 then modbus_poly else 0) / 2 ^ 15)
    ∙ top

shift_bit_inj :
    (x y : ℕ) → x < 2 ^ 16 → y < 2 ^ 16 → shift_bit modbus_poly x ≡ shift_bit modbus_poly y → x ≡ y
unfolding shift_bit
shift_bit_inj x y a b e =
    let low : x % 2 ≡ y % 2 =
      sym (shift_bit_top x a) ∙ ap (λ t. t / 2 ^ 15) e ∙ shift_bit_top y b in
    let half : x / 2 ≡ y / 2 =
      sym (xor_cancel (x / 2) (if x % 2 == 1 then modbus_poly else 0))
      ∙ ap (λ t. bit_xor t (if x % 2 == 1 then modbus_poly else 0)) e
      ∙ ap
          (λ l.
            bit_xor (bit_xor (y / 2) (if y % 2 == 1 then modbus_poly else 0))
              (if l == 1 then modbus_poly else 0))
          low
      ∙ xor_cancel (y / 2) (if y % 2 == 1 then modbus_poly else 0) in
    omega arith

shift_bit_bound : (x : ℕ) → x < 2 ^ 16 → shift_bit modbus_poly x < 2 ^ 16
unfolding shift_bit
shift_bit_bound x a =
    xor_bound 16 (x / 2) (if x % 2 == 1 then modbus_poly else 0) (omega arith) (ground arith)

shift_bits_inj :
    (n x y : ℕ)
    → x < 2 ^ 16
    → y < 2 ^ 16
    → shift_bits modbus_poly n x ≡ shift_bits modbus_poly n y
    → x ≡ y
unfolding shift_bits
shift_bits_inj zero x y a b e = e
shift_bits_inj (suc n) x y a b e = shift_bit_inj x y a b (
    shift_bits_inj n (shift_bit modbus_poly x) (shift_bit modbus_poly y) (shift_bit_bound x a)
      (shift_bit_bound y b) e)

shift_bits_bound : (n x : ℕ) → x < 2 ^ 16 → shift_bits modbus_poly n x < 2 ^ 16
unfolding shift_bits
shift_bits_bound zero x a = a
shift_bits_bound (suc n) x a = shift_bits_bound n (shift_bit modbus_poly x) (shift_bit_bound x a)

pub serial_inj :
    (c d : ℕ) (us : List ℕ)
    → c < 2 ^ 16
    → d < 2 ^ 16
    → All IsByte us
    → serial modbus_poly c us ≡ serial modbus_poly d us
    → c ≡ d
unfolding serial
serial_inj c d [] a b bytes e = e
serial_inj c d (u ∷ us) a b (byte, bytes) e =
    let x : bit_xor c u < 2 ^ 16 = xor_bound 16 c u a (omega arith) in
    let y : bit_xor d u < 2 ^ 16 = xor_bound 16 d u b (omega arith) in
    let same : bit_xor c u ≡ bit_xor d u = shift_bits_inj 8 (bit_xor c u) (bit_xor d u) x y (
      serial_inj (shift_bits modbus_poly 8 (bit_xor c u)) (shift_bits modbus_poly 8 (bit_xor d u))
        us (shift_bits_bound 8 (bit_xor c u) x) (shift_bits_bound 8 (bit_xor d u) y) bytes e) in
    sym (xor_cancel c u) ∙ ap (λ t. bit_xor t u) same ∙ xor_cancel d u
