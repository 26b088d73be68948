-- ===== src/Algo/Crc/Xmodem.antt =====
-- hj/algo/crc16.h: the XMODEM check sum, highest bit first, and that its table computes it.
use Prim.Native.Nat.{bit_and, bit_xor}
use high_jump.Common.{
  ℕ, zero, suc, ◌+◌, ◌*◌, ◌/◌, ◌%◌, ◌^◌, ◌<◌, ◌≡◌, refl, sym, ap, ◌∙◌, List, [], ◌∷◌, if◌then◌else◌,
  ◌==◌, ==_iff, arith, length, take_all, some, All,
}
use high_jump.Common.Bits.{and_mask, all_below, all_below_lem}
use high_jump.Common.Xor.{
  xor_comm, xor_scale, zero-xor, xor-zero, xor_self, xor_medial, xor_low, xor_bound, xor_div,
  xor_mod, xor_parity,
}
use high_jump.Algo.Crc.Table.{entry}
use high_jump.Algo.Crc.Crc16.{xmodem_table, xmodem_byte, xmodem_loop, xmodem_start, crc16_xmodem}
use high_jump.Algo.Crc.Serial.{IsByte}

abbrev pub xmodem_poly : ℕ
xmodem_poly = 0x1021

-- One bit: the highest of 16 goes, and the polynomial is subtracted if it was set.
pub shift_top : ℕ → ℕ
shift_top x = bit_xor (x * 2 ^ 1 % 2 ^ 16) (if x / 2 ^ 15 % 2 == 1 then xmodem_poly else 0)

pub shift_tops : ℕ → ℕ → ℕ
shift_tops zero x = x
shift_tops (suc n) x = shift_tops n (shift_top x)

pub serial_top : ℕ → List ℕ → ℕ
serial_top crc [] = crc
serial_top crc (u ∷ us) = serial_top (shift_tops 8 (bit_xor crc (u * 2 ^ 8))) us

subtrahend_top :
    (x y : ℕ)
    → bit_xor
        (if x / 2 ^ 15 % 2 == 1 then xmodem_poly else 0)
        (if y / 2 ^ 15 % 2 == 1 then xmodem_poly else 0)
      ≡ (if bit_xor x y / 2 ^ 15 % 2 == 1 then xmodem_poly else 0)
subtrahend_top x y = ground (
  arith,
  xor_div 15 x y,
  xor_parity (x / 2 ^ 15) (y / 2 ^ 15),
  xor_self xmodem_poly,
  xor-zero xmodem_poly,
  zero-xor xmodem_poly,
  zero-xor 0,
)

shift_top-xor : (x y : ℕ) → shift_top (bit_xor x y) ≡ bit_xor (shift_top x) (shift_top y)
unfolding shift_top
shift_top-xor x y =
    ap (λ t. bit_xor t (if bit_xor x y / 2 ^ 15 % 2 == 1 then xmodem_poly else 0))
      (ap (λ t. t % 2 ^ 16) (sym (xor_scale 1 x y)) ∙ xor_mod 16 (x * 2 ^ 1) (y * 2 ^ 1))
    ∙ ap (bit_xor (bit_xor (x * 2 ^ 1 % 2 ^ 16) (y * 2 ^ 1 % 2 ^ 16))) (sym (subtrahend_top x y))
    ∙ xor_medial (x * 2 ^ 1 % 2 ^ 16) (y * 2 ^ 1 % 2 ^ 16)
        (if x / 2 ^ 15 % 2 == 1 then xmodem_poly else 0)
        (if y / 2 ^ 15 % 2 == 1 then xmodem_poly else 0)

shift_tops-xor :
    (n x y : ℕ) → shift_tops n (bit_xor x y) ≡ bit_xor (shift_tops n x) (shift_tops n y)
unfolding shift_tops
shift_tops-xor zero x y = refl
shift_tops-xor (suc n) x y =
    ap (shift_tops n) (shift_top-xor x y) ∙ shift_tops-xor n (shift_top x) (shift_top y)

-- The table has eight bits of every high byte; a low byte is only moved.
entry_top : (i : ℕ) → i < 256 → entry xmodem_table i ≡ shift_tops 8 (i * 2 ^ 8)
unfolding all_below entry shift_tops shift_top
entry_top i h =
    (==_iff (entry xmodem_table i) (shift_tops 8 (i * 2 ^ 8))).0
      (all_below_lem 256 (λ j. entry xmodem_table j == shift_tops 8 (j * 2 ^ 8)) i refl h)

low_top : (i : ℕ) → i < 256 → i * 2 ^ 8 ≡ shift_tops 8 i
unfolding all_below shift_tops shift_top
low_top i h =
    (==_iff (i * 2 ^ 8) (shift_tops 8 i)).0
      (all_below_lem 256 (λ j. j * 2 ^ 8 == shift_tops 8 j) i refl h)

entry-bound : (i : ℕ) → i < 256 → entry xmodem_table i < 2 ^ 16
unfolding all_below entry
entry-bound i h =
    let none_above : entry xmodem_table i / 2 ^ 16 ≡ 0 =
      (==_iff (entry xmodem_table i / 2 ^ 16) 0).0
        (all_below_lem 256 (λ j. entry xmodem_table j / 2 ^ 16 == 0) i refl h) in
    omega arith

-- Eight bits of a number of 16: the table at its high byte, and its low byte moved up.
shift_tops-split :
    (h l : ℕ)
    → h < 256
    → l < 256
    → shift_tops 8 (h * 2 ^ 8 + l) ≡ bit_xor (l * 2 ^ 8) (entry xmodem_table h)
shift_tops-split h l f g =
    ap (shift_tops 8) (sym (xor_low 8 h l g))
    ∙ shift_tops-xor 8 (h * 2 ^ 8) l
    ∙ ap (bit_xor (shift_tops 8 (h * 2 ^ 8))) (sym (low_top l g))
    ∙ ap (λ t. bit_xor t (l * 2 ^ 8)) (sym (entry_top h f))
    ∙ xor_comm (entry xmodem_table h) (l * 2 ^ 8)

xmodem_byte-serial :
    (crc u : ℕ)
    → crc < 2 ^ 16
    → u < 256
    → xmodem_byte crc u ≡ shift_tops 8 (bit_xor crc (u * 2 ^ 8))
unfolding xmodem_byte
xmodem_byte-serial crc u fits byte =
    let i : ℕ = bit_xor (crc / 2 ^ 8) u in
    let x : ℕ = bit_xor crc (u * 2 ^ 8) in
    let below : i < 256 = xor_bound 8 (crc / 2 ^ 8) u (omega arith) (omega arith) in
    let index : bit_and i 0xff ≡ i = omega (arith, and_mask 8 i) in
    let moved : u * 2 ^ 8 / 2 ^ 8 ≡ u = omega arith in
    let gone : u * 2 ^ 8 % 2 ^ 8 ≡ 0 = omega arith in
    let high : x / 2 ^ 8 ≡ i = xor_div 8 crc (u * 2 ^ 8) ∙ ap (bit_xor (crc / 2 ^ 8)) moved in
    let low : x % 2 ^ 8 ≡ crc % 2 ^ 8 =
      xor_mod 8 crc (u * 2 ^ 8) ∙ ap (bit_xor (crc % 2 ^ 8)) gone ∙ xor-zero (crc % 2 ^ 8) in
    let parts : i * 2 ^ 8 + crc % 2 ^ 8 ≡ x = omega arith in
    let cut : crc * 2 ^ 8 % 2 ^ 16 ≡ crc % 2 ^ 8 * 2 ^ 8 = omega arith in
    let whole : entry xmodem_table i % 2 ^ 16 ≡ entry xmodem_table i =
      omega (arith, entry-bound i below) in
    ap (λ j. bit_xor (crc * 2 ^ 8) (entry xmodem_table j) % 2 ^ 16) index
    ∙ xor_mod 16 (crc * 2 ^ 8) (entry xmodem_table i)
    ∙ ap (λ t. bit_xor t (entry xmodem_table i % 2 ^ 16)) cut
    ∙ ap (bit_xor (crc % 2 ^ 8 * 2 ^ 8)) whole
    ∙ sym (shift_tops-split i (crc % 2 ^ 8) below (omega arith))
    ∙ ap (shift_tops 8) parts

xmodem_byte-bound : (crc u : ℕ) → xmodem_byte crc u < 2 ^ 16
unfolding xmodem_byte
xmodem_byte-bound crc u = omega arith

xmodem_loop-serial :
    (crc : ℕ) (us : List ℕ) → crc < 2 ^ 16 → All IsByte us → xmodem_loop crc us ≡ serial_top crc us
unfolding xmodem_loop serial_top
xmodem_loop-serial crc [] fits bytes = refl
xmodem_loop-serial crc (u ∷ us) fits (byte, bytes) =
    xmodem_loop-serial (xmodem_byte crc u) us (xmodem_byte-bound crc u) bytes
    ∙ ap (λ c. serial_top c us) (xmodem_byte-serial crc u fits byte)

-- For every buffer of bytes and every start value of 16 bits, `crc16` of the XMODEM kind is the check
-- sum computed bit by bit, highest bit first, from the start value.
pub crc16_xmodem-serial :
    (us : List ℕ) (start : ℕ)
    → start < 2 ^ 16
    → All IsByte us
    → crc16_xmodem (some us) (length us) start ≡ serial_top start us
unfolding crc16_xmodem xmodem_start
crc16_xmodem-serial us start fits bytes =
    let e : (if start == 0 then 0 else start) ≡ start = ground arith in
    rw (take_all (length us) us (omega arith), e) (xmodem_loop-serial start us fits bytes)
