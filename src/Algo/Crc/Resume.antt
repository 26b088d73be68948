-- ===== src/Algo/Crc/Resume.antt =====
-- hj/algo/crc32.h and hj/algo/crc16.h: a check sum taken up where another ended.
use Prim.Native.Nat.{bit_and, bit_xor}
use high_jump.Common.{
  ℕ, ◌≢◌, All, ◌+◌, ◌*◌, ◌/◌, ◌%◌, ◌^◌, ◌<◌, ◌≡◌, refl, sym, ap, ◌∙◌, List, [], ◌∷◌, ◌++◌, ◌==◌,
  ==_iff, Bool-cases, arith, length, take_all, some, inl, inr,
}
use high_jump.Common.Bits.{and_mask, all_below, all_below_lem}
use high_jump.Common.Xor.{zero-xor, xor_bound, xor_cancel, xor_low}
use high_jump.Algo.Crc.Table.{entry}
use high_jump.Algo.Crc.Crc32.{crc32_byte, crc32_loop, crc32_start, crc32}
use high_jump.Algo.Crc.Crc16.{modbus_table, modbus_byte, modbus_loop, modbus_start, crc16_modbus}
use high_jump.Algo.Crc.Serial.{IsByte, modbus_loop-serial}
use high_jump.Algo.Crc.Lossless.{serial_inj}

crc32_loop-append :
    (crc : ℕ) (us vs : List ℕ) → crc32_loop crc (us ++ vs) ≡ crc32_loop (crc32_loop crc us) vs
unfolding crc32_loop
crc32_loop-append crc [] vs = refl
crc32_loop-append crc (u ∷ us) vs = crc32_loop-append (crc32_byte crc u) us vs

modbus_loop-append :
    (crc : ℕ) (us vs : List ℕ) → modbus_loop crc (us ++ vs) ≡ modbus_loop (modbus_loop crc us) vs
unfolding modbus_loop
modbus_loop-append crc [] vs = refl
modbus_loop-append crc (u ∷ us) vs = modbus_loop-append (modbus_byte crc u) us vs

crc32_all :
    (us : List ℕ) (start : ℕ)
    → crc32 (some us) (length us) start ≡ bit_xor (crc32_loop (crc32_start start) us) 0xffff_ffff
unfolding crc32
crc32_all us start = rw (take_all (length us) us (omega arith)) refl

modbus_all :
    (us : List ℕ) (start : ℕ)
    → crc16_modbus (some us) (length us) start ≡ modbus_loop (modbus_start start) us
unfolding crc16_modbus
modbus_all us start = rw (take_all (length us) us (omega arith)) refl

-- The start value that gives the state back which the inverted result hides, also when it is 0.
crc32_start-invert : (c : ℕ) → crc32_start (bit_xor c 0xffff_ffff) ≡ c
unfolding crc32_start
crc32_start-invert c = elim (Bool-cases (bit_xor c 0xffff_ffff == 0)) [
  | inl none_left ↦ rw none_left (
      sym (
        sym (xor_cancel c 0xffff_ffff)
        ∙ ap (λ t. bit_xor t 0xffff_ffff) ((==_iff (bit_xor c 0xffff_ffff) 0).0 none_left)
        ∙ zero-xor 0xffff_ffff))
  | inr other ↦ rw other (xor_cancel c 0xffff_ffff)
]

-- `crc32` of a buffer with the check sum of an earlier buffer as its start value is the check sum
-- of both buffers, one after the other: for every two buffers and every start value.
pub crc32_resume :
    (us vs : List ℕ) (start : ℕ)
    → crc32 (some vs) (length vs) (crc32 (some us) (length us) start)
      ≡ crc32 (some (us ++ vs)) (length (us ++ vs)) start
crc32_resume us vs start =
    let c : ℕ = crc32_loop (crc32_start start) us in
    ap (crc32 (some vs) (length vs)) (crc32_all us start)
    ∙ crc32_all vs (bit_xor c 0xffff_ffff)
    ∙ ap (λ t. bit_xor (crc32_loop t vs) 0xffff_ffff) (crc32_start-invert c)
    ∙ ap (λ t. bit_xor t 0xffff_ffff) (sym (crc32_loop-append (crc32_start start) us vs))
    ∙ sym (crc32_all (us ++ vs) start)

-- The entries of the table have 16 bits.
modbus_entry-bound : (i : ℕ) → i < 256 → entry modbus_table i < 2 ^ 16
unfolding all_below entry
modbus_entry-bound i h =
    let none_above : entry modbus_table i / 2 ^ 16 ≡ 0 =
      (==_iff (entry modbus_table i / 2 ^ 16) 0).0
        (all_below_lem 256 (λ j. entry modbus_table j / 2 ^ 16 == 0) i refl h) in
    omega arith

masked_bound : (x : ℕ) → bit_and x 0xff < 256
masked_bound x = omega (arith, and_mask 8 x)

modbus_byte-bound : (crc u : ℕ) → crc < 2 ^ 16 → modbus_byte crc u < 2 ^ 16
unfolding modbus_byte
modbus_byte-bound crc u h =
    xor_bound 16 (entry modbus_table (bit_and (bit_xor crc u) 0xff)) (crc / 2 ^ 8)
      (modbus_entry-bound (bit_and (bit_xor crc u) 0xff) (masked_bound (bit_xor crc u)))
      (omega arith)

modbus_loop-bound : (crc : ℕ) (us : List ℕ) → crc < 2 ^ 16 → modbus_loop crc us < 2 ^ 16
unfolding modbus_loop
modbus_loop-bound crc [] h = h
modbus_loop-bound crc (u ∷ us) h =
    modbus_loop-bound (modbus_byte crc u) us (modbus_byte-bound crc u h)

-- A byte equal to the low byte of the check sum leaves the high one.
modbus_byte-same : (crc : ℕ) → modbus_byte crc (crc % 256) ≡ crc / 256
unfolding modbus_byte entry
modbus_byte-same crc =
    let e : crc / 2 ^ 8 * 2 ^ 8 + crc % 256 ≡ crc = omega arith in
    let high : bit_xor crc (crc % 256) ≡ crc / 2 ^ 8 * 2 ^ 8 =
      ap (λ t. bit_xor t (crc % 256))
        (sym e ∙ sym (xor_low 8 (crc / 2 ^ 8) (crc % 256) (omega arith)))
      ∙ xor_cancel (crc / 2 ^ 8 * 2 ^ 8) (crc % 256) in
    let index : bit_and (bit_xor crc (crc % 256)) 0xff ≡ 0 =
      omega (arith, and_mask 8 (bit_xor crc (crc % 256))) in
    ap (λ i. bit_xor (entry modbus_table i) (crc / 256)) index ∙ zero-xor (crc / 256)

-- The two bytes of a check sum, as a frame carries them.
abbrev pub trailer : ℕ → List ℕ
trailer crc = crc % 256 ∷ crc / 256 ∷ []

modbus_trailer : (crc : ℕ) → crc < 2 ^ 16 → modbus_loop crc (trailer crc) ≡ 0
unfolding modbus_loop
modbus_trailer crc h =
    let low : crc / 256 % 256 ≡ crc / 256 = omega arith in
    let none_left : crc / 256 / 256 ≡ 0 = omega arith in
    ap (λ c. modbus_byte c (crc / 256)) (modbus_byte-same crc)
    ∙ ap (modbus_byte (crc / 256)) (sym low)
    ∙ modbus_byte-same (crc / 256)
    ∙ none_left

start_bound : (start : ℕ) → start < 2 ^ 16 → modbus_start start < 2 ^ 16
unfolding modbus_start
start_bound start h = ground arith

-- The MODBUS check sum of a buffer of any length that is followed by its own check sum, low byte first,
-- is 0, for every start value of 16 bits.
pub modbus_residue :
    (us : List ℕ) (start : ℕ)
    → start < 2 ^ 16
    → crc16_modbus
        (some (us ++ trailer (crc16_modbus (some us) (length us) start)))
        (length (us ++ trailer (crc16_modbus (some us) (length us) start)))
        start
      ≡ 0
modbus_residue us start h =
    let c : ℕ = modbus_loop (modbus_start start) us in
    rw (modbus_all us start) (
      modbus_all (us ++ trailer c) start
      ∙ modbus_loop-append (modbus_start start) us (trailer c)
      ∙ modbus_trailer c (modbus_loop-bound (modbus_start start) us (start_bound start h)))

-- If the MODBUS check sum of the bytes so far is 0, then taking it up with any further bytes never gives
-- the check sum of all the bytes, as it starts afresh: for every buffer, further bytes and start value.
pub modbus_resume_zero :
    (us vs : List ℕ) (start : ℕ)
    → All IsByte vs
    → crc16_modbus (some us) (length us) start ≡ 0
    → crc16_modbus (some vs) (length vs) (crc16_modbus (some us) (length us) start)
      ≢ crc16_modbus (some (us ++ vs)) (length (us ++ vs)) start
unfolding modbus_start
modbus_resume_zero us vs start bytes none_left same =
    let left : crc16_modbus (some vs) (length vs) (crc16_modbus (some us) (length us) start)
        ≡ modbus_loop 0xffff vs =
      ap (crc16_modbus (some vs) (length vs)) none_left ∙ modbus_all vs 0 in
    let state : modbus_loop (modbus_start start) us ≡ 0 = sym (modbus_all us start) ∙ none_left in
    let right : crc16_modbus (some (us ++ vs)) (length (us ++ vs)) start ≡ modbus_loop 0 vs =
      modbus_all (us ++ vs) start
      ∙ modbus_loop-append (modbus_start start) us vs
      ∙ ap (λ c. modbus_loop c vs) state in
    let top : ℕ = 0xffff in
    let clash : top ≡ 0 = serial_inj top 0 vs (omega arith) (omega arith) bytes (
      sym (modbus_loop-serial 0xffff vs bytes)
      ∙ sym left
      ∙ same
      ∙ right
      ∙ modbus_loop-serial 0 vs bytes) in
    absurd (omega arith)
