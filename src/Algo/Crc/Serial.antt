-- ===== src/Algo/Crc/Serial.antt =====
-- hj/algo/crc32.h and hj/algo/crc16.h: the check sum bit by bit, and that the tables compute it.
use Prim.Native.Nat.{bit_and, bit_xor}
use high_jump.Common.{
  ℕ, zero, suc, ◌+◌, ◌*◌, ◌/◌, ◌%◌, ◌^◌, ◌<◌, ◌≡◌, refl, sym, ap, ◌∙◌, true, List, [], ◌∷◌,
  if◌then◌else◌, ◌==◌, ==_iff, arith, length, take_all, some, All,
}
use high_jump.Common.Bits.{and_mask, all_below, all_below_lem}
use high_jump.Common.Xor.{
  xor_comm, xor_half, xor_parity, zero-xor, xor-zero, xor_self, xor_medial, xor_low, xor_div,
}
use high_jump.Algo.Crc.Table.{entry}
use high_jump.Algo.Crc.Crc32.{crc32_table, crc32_byte, crc32_loop, crc32_start, crc32}
use high_jump.Algo.Crc.Crc16.{modbus_table, modbus_byte, modbus_loop, modbus_start, crc16_modbus}

-- One bit of a reflected check sum: division by the polynomial, lowest bit first.
unfoldable pub shift_bit : ℕ → ℕ → ℕ
shift_bit poly x = bit_xor (x / 2) (if x % 2 == 1 then poly else 0)

unfoldable pub shift_bits : ℕ → ℕ → ℕ → ℕ
shift_bits poly zero x = x
shift_bits poly (suc n) x = shift_bits poly n (shift_bit poly x)

-- The check sum of a message, byte by byte, eight bits each.
unfoldable pub serial : ℕ → ℕ → List ℕ → ℕ
serial poly crc [] = crc
serial poly crc (u ∷ us) = serial poly (shift_bits poly 8 (bit_xor crc u)) us

subtrahend :
    (poly x y : ℕ)
    → bit_xor (if x % 2 == 1 then poly else 0) (if y % 2 == 1 then poly else 0)
      ≡ (if bit_xor x y % 2 == 1 then poly else 0)
subtrahend poly x y =
    ground (arith, xor_parity x y, xor_self poly, xor-zero poly, zero-xor poly, zero-xor 0)

shift_bit-xor :
    (poly x y : ℕ) → shift_bit poly (bit_xor x y) ≡ bit_xor (shift_bit poly x) (shift_bit poly y)
unfolding shift_bit
shift_bit-xor poly x y =
    ap (λ t. bit_xor t (if bit_xor x y % 2 == 1 then poly else 0)) (xor_half x y)
    ∙ ap (bit_xor (bit_xor (x / 2) (y / 2))) (sym (subtrahend poly x y))
    ∙ xor_medial (x / 2) (y / 2) (if x % 2 == 1 then poly else 0) (if y % 2 == 1 then poly else 0)

shift_bits-xor :
    (poly n x y : ℕ)
    → shift_bits poly n (bit_xor x y) ≡ bit_xor (shift_bits poly n x) (shift_bits poly n y)
unfolding shift_bits
shift_bits-xor poly zero x y = refl
shift_bits-xor poly (suc n) x y =
    ap (shift_bits poly n) (shift_bit-xor poly x y)
    ∙ shift_bits-xor poly n (shift_bit poly x) (shift_bit poly y)

shift_bit-even : (poly h : ℕ) → shift_bit poly (2 * h) ≡ h
unfolding shift_bit
shift_bit-even poly h =
    let e : 2 * h / 2 ≡ h = omega arith in
    let o : 2 * h % 2 ≡ 0 = omega arith in rw (e, o) (xor-zero h)

-- Zero bits only move the others.
shift_bits-high : (poly h : ℕ) → shift_bits poly 8 (h * 2 ^ 8) ≡ h
unfolding shift_bits
shift_bits-high poly h =
    let e : h * 2 ^ 8 ≡ 2 * (2 * (2 * (2 * (2 * (2 * (2 * (2 * h))))))) = omega arith in
    rw e (simp (shift_bit-even poly))

-- Eight bits of any number: what eight bits of its low byte give, on the rest of it.
shift_bits-split :
    (poly x : ℕ) → shift_bits poly 8 x ≡ bit_xor (shift_bits poly 8 (x % 2 ^ 8)) (x / 2 ^ 8)
shift_bits-split poly x =
    let e : x / 2 ^ 8 * 2 ^ 8 + x % 2 ^ 8 ≡ x = omega arith in
    ap (shift_bits poly 8) (sym e ∙ sym (xor_low 8 (x / 2 ^ 8) (x % 2 ^ 8) (omega arith)))
    ∙ shift_bits-xor poly 8 (x / 2 ^ 8 * 2 ^ 8) (x % 2 ^ 8)
    ∙ ap (λ t. bit_xor t (shift_bits poly 8 (x % 2 ^ 8))) (shift_bits-high poly (x / 2 ^ 8))
    ∙ xor_comm (x / 2 ^ 8) (shift_bits poly 8 (x % 2 ^ 8))

-- A table that has the eight bits of every byte.
pub IsTable : ℕ → List ℕ → Type 0
IsTable poly table = all_below 256 (λ i. entry table i == shift_bits poly 8 i) ≡ true

table_byte :
    (poly : ℕ) (table : List ℕ) (crc u : ℕ)
    → IsTable poly table
    → u < 256
    → bit_xor (entry table (bit_and (bit_xor crc u) 0xff)) (crc / 2 ^ 8)
      ≡ shift_bits poly 8 (bit_xor crc u)
unfolding IsTable
table_byte poly table crc u t byte =
    let x : ℕ = bit_xor crc u in
    let none_left : u / 256 ≡ 0 = omega arith in
    let rest : x / 2 ^ 8 ≡ crc / 2 ^ 8 =
      xor_div 8 crc u ∙ ap (bit_xor (crc / 256)) none_left ∙ xor-zero (crc / 256) in
    let low : entry table (x % 2 ^ 8) ≡ shift_bits poly 8 (x % 2 ^ 8) =
      (==_iff (entry table (x % 2 ^ 8)) (shift_bits poly 8 (x % 2 ^ 8))).0 (
        all_below_lem 256 (λ i. entry table i == shift_bits poly 8 i) (x % 2 ^ 8) t
          (omega arith)) in
    ap (λ i. bit_xor (entry table i) (crc / 2 ^ 8)) (and_mask 8 x)
    ∙ ap (λ t. bit_xor t (crc / 2 ^ 8)) low
    ∙ ap (bit_xor (shift_bits poly 8 (x % 2 ^ 8))) (sym rest)
    ∙ sym (shift_bits-split poly x)

-- The reflected polynomials of the two algorithms.
abbrev pub crc32_poly : ℕ
crc32_poly = 0xedb8_8320

abbrev pub modbus_poly : ℕ
modbus_poly = 0xa001

crc32_table-IsTable : IsTable crc32_poly crc32_table
unfolding IsTable all_below entry shift_bits shift_bit
crc32_table-IsTable = refl

modbus_table-IsTable : IsTable modbus_poly modbus_table
unfolding IsTable all_below entry shift_bits shift_bit
modbus_table-IsTable = refl

abbrev pub IsByte : ℕ → Type 0
IsByte u = u < 256

pub crc32_loop-serial :
    (crc : ℕ) (us : List ℕ) → All IsByte us → crc32_loop crc us ≡ serial crc32_poly crc us
unfolding crc32_loop crc32_byte serial
crc32_loop-serial crc [] bytes = refl
crc32_loop-serial crc (u ∷ us) (byte, bytes) =
    ap (λ c. crc32_loop c us) (table_byte crc32_poly crc32_table crc u crc32_table-IsTable byte)
    ∙ crc32_loop-serial (shift_bits crc32_poly 8 (bit_xor crc u)) us bytes

pub modbus_loop-serial :
    (crc : ℕ) (us : List ℕ) → All IsByte us → modbus_loop crc us ≡ serial modbus_poly crc us
unfolding modbus_loop modbus_byte serial
modbus_loop-serial crc [] bytes = refl
modbus_loop-serial crc (u ∷ us) (byte, bytes) =
    ap (λ c. modbus_loop c us) (table_byte modbus_poly modbus_table crc u modbus_table-IsTable byte)
    ∙ modbus_loop-serial (shift_bits modbus_poly 8 (bit_xor crc u)) us bytes

crc32_start_lem : (start : ℕ) → crc32_start start ≡ bit_xor start 0xffff_ffff
unfolding crc32_start
crc32_start_lem start = ground (arith, zero-xor 0xffff_ffff)

-- For every buffer of bytes and every start value, `crc32` by its table is the check sum computed
-- bit by bit with the reflected polynomial, its start value and its result inverted.
pub crc32-serial :
    (us : List ℕ) (start : ℕ)
    → All IsByte us
    → crc32 (some us) (length us) start
      ≡ bit_xor (serial crc32_poly (bit_xor start 0xffff_ffff) us) 0xffff_ffff
unfolding crc32
crc32-serial us start bytes =
    rw
      (
        take_all (length us) us (omega arith),
        crc32_start_lem start,
        crc32_loop-serial (bit_xor start 0xffff_ffff) us bytes,
      )
      refl

-- For every buffer of bytes, `crc16` of the MODBUS kind is the check sum computed bit by bit with the
-- reflected polynomial, from 0xFFFF if the start value is 0 and else from the start value.
pub crc16_modbus-serial :
    (us : List ℕ) (start : ℕ)
    → All IsByte us
    → crc16_modbus (some us) (length us) start
      ≡ serial modbus_poly (if start == 0 then 0xffff else start) us
unfolding crc16_modbus modbus_start
crc16_modbus-serial us start bytes =
    rw (take_all (length us) us (omega arith))
      (modbus_loop-serial (if start == 0 then 0xffff else start) us bytes)
