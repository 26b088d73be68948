-- ===== src/Algo/BloomFilter/Bits.antt =====
-- hj/algo/bloom_filter.hpp: reading a bit that was set or reset, through the words.
use Prim.Native.Nat.{max}
use high_jump.Common.{
  ℕ, ◌+◌, ◌-◌, ◌*◌, ◌/◌, ◌%◌, ◌^◌, ◌<◌, ◌≤◌, ◌≡◌, refl, sym, ap, ◌∙◌, Bool, true, false, ◌&&◌, ltb,
  leb, ◌==◌, ==_iff, Bool-cases, inl, inr, if◌then◌else◌, length, get_or, get_or-set, length-set,
  length-replicate, arith, min, not,
}
use native.Mathlib.Decide.{dec_le}
use high_jump.Common.Bits.{and_mask, or_place, and_place, all_below, all_below_lem}
use high_jump.Algo.BloomFilter.{DynamicBitset, make_bitset, one_bit, change_word, set_bit, test}

-- There is a word for every bit.
pub record IsValid (b : DynamicBitset) : Type 0 where
  pub words : length b.data_words ≡ b.num_words
  pub enough : b.num_bits ≤ 64 * b.num_words

pub make_bitset-IsValid : (n : ℕ) → n < 2 ^ 63 → IsValid (make_bitset n)
unfolding make_bitset
make_bitset-IsValid n h = record {
  words = length-replicate ((n + 63) % 2 ^ 64 / 64) 0;
  enough = omega arith;
}

pub set_bit-IsValid :
    (b : DynamicBitset) (pos : ℕ) (value : Bool) → IsValid b → IsValid (set_bit b pos value)
unfolding set_bit
set_bit-IsValid b pos value v =
    let new : ℕ = change_word value (pos % 64) (get_or b.data_words (pos / 64) 0) in
    elim (Bool-cases (leb b.num_bits pos)) [
      | inl out ↦ rw out v
      | inr inside ↦
          rw inside
            (record { words = length-set b.data_words (pos / 64) new ∙ v.words; enough = v.enough })
    ]

-- `value` as a digit.
abbrev digit : Bool → ℕ
digit value = if value then 1 else 0

place_table : (i j : ℕ) → i < 64 → j < 64 → one_bit i / 2 ^ j % 2 ≡ digit (i == j)
unfolding one_bit all_below
place_table i j p q = (==_iff (2 ^ i / 2 ^ j % 2) (digit (i == j))).0 (
    all_below_lem 64 (λ b. 2 ^ i / 2 ^ b % 2 == digit (i == b)) j
      (all_below_lem 64 (λ a. all_below 64 (λ b. 2 ^ a / 2 ^ b % 2 == digit (a == b))) i refl p) q)

mask_table :
    (i j : ℕ) → i < 64 → j < 64 → (2 ^ 64 - 1 - one_bit i) / 2 ^ j % 2 ≡ digit (not (i == j))
unfolding one_bit all_below
mask_table i j p q = (==_iff ((2 ^ 64 - 1 - 2 ^ i) / 2 ^ j % 2) (digit (not (i == j)))).0 (
    all_below_lem 64 (λ b. (2 ^ 64 - 1 - 2 ^ i) / 2 ^ b % 2 == digit (not (i == b))) j
      (all_below_lem 64
        (λ a. all_below 64 (λ b. (2 ^ 64 - 1 - 2 ^ a) / 2 ^ b % 2 == digit (not (a == b)))) i refl
        p)
      q)

-- One digit of the word is changed.
change_word-place :
    (value : Bool) (i j w : ℕ)
    → i < 64
    → j < 64
    → change_word value i w / 2 ^ j % 2 ≡ (if i == j then digit value else w / 2 ^ j % 2)
unfolding change_word
change_word-place true i j w p q =
    or_place j w (one_bit i) ∙ ap (max (w / 2 ^ j % 2)) (place_table i j p q) ∙ ground arith
change_word-place false i j w p q =
    and_place j w (2 ^ 64 - 1 - one_bit i)
    ∙ ap (min (w / 2 ^ j % 2)) (mask_table i j p q)
    ∙ ground arith

-- The digit that `test` reads.
abbrev place : DynamicBitset → ℕ → ℕ
place b pos = get_or b.data_words (pos / 64) 0 / 2 ^ (pos % 64) % 2

test-place : (b : DynamicBitset) (pos : ℕ) → pos < b.num_bits → test b pos ≡ (place b pos == 1)
unfolding test
test-place b pos h =
    let inside : leb b.num_bits pos ≡ false = ground arith in
    rw inside (ap (λ t. t == 1) (and_mask 1 (get_or b.data_words (pos / 64) 0 / 2 ^ (pos % 64))))

pub test_out : (b : DynamicBitset) (pos : ℕ) → b.num_bits ≤ pos → test b pos ≡ false
unfolding test
test_out b pos h = ground arith

-- Two places in one word are the same if their digits are.
same_word :
    (b : DynamicBitset) (pos q : ℕ) (value : Bool) (w : ℕ)
    → pos / 64 ≡ q / 64
    → w ≡ get_or b.data_words (pos / 64) 0
    → (if pos % 64 == q % 64 then digit value else w / 2 ^ (q % 64) % 2)
      ≡ (if pos == q then digit value else place b q)
same_word b pos q value w e read = elim (Bool-cases (pos == q)) [
  | inl same ↦ let low : (pos % 64 == q % 64) ≡ true = ground arith in rw (same, low) refl
  | inr other ↦
      let low : (pos % 64 == q % 64) ≡ false = ground arith in
      rw (other, low) (ap (λ t. t / 2 ^ (q % 64) % 2) (read ∙ ap (λ t. get_or b.data_words t 0) e))
]

place-set_bit :
    (b : DynamicBitset) (pos q : ℕ) (value : Bool)
    → IsValid b
    → pos < b.num_bits
    → place (set_bit b pos value) q ≡ (if pos == q then digit value else place b q)
unfolding set_bit
place-set_bit b pos q value v h =
    let inside : leb b.num_bits pos ≡ false = ground arith in
    let w : ℕ = get_or b.data_words (pos / 64) 0 in
    let new : ℕ = change_word value (pos % 64) w in
    let fits : pos / 64 < length b.data_words = omega (arith, v.words, v.enough) in
    rw inside (
      ap (λ t. t / 2 ^ (q % 64) % 2) (get_or-set b.data_words (pos / 64) (q / 64) new 0 fits)
      ∙ elim (Bool-cases (pos / 64 == q / 64)) [
        | inl same ↦
            let e : pos / 64 ≡ q / 64 = (==_iff (pos / 64) (q / 64)).0 same in
            rw same (
              change_word-place value (pos % 64) (q % 64) w (omega arith) (omega arith)
              ∙ same_word b pos q value w e refl)
        | inr other ↦ let apart : (pos == q) ≡ false = ground arith in rw (other, apart) refl
      ])

set_bit-out :
    (b : DynamicBitset) (pos : ℕ) (value : Bool) → b.num_bits ≤ pos → set_bit b pos value ≡ b
unfolding set_bit
set_bit-out b pos value h = let out : leb b.num_bits pos ≡ true = ground arith in rw out refl

pub num_bits-set_bit :
    (b : DynamicBitset) (pos : ℕ) (value : Bool) → (set_bit b pos value).num_bits ≡ b.num_bits
unfolding set_bit
num_bits-set_bit b pos value = elim (Bool-cases (leb b.num_bits pos)) [
  | inl out ↦ rw out refl
  | inr inside ↦ rw inside refl
]

digit_back : (value : Bool) → (digit value == 1) ≡ value
digit_back true = refl
digit_back false = refl

read_back :
    (b : DynamicBitset) (pos q : ℕ) (value : Bool)
    → pos < b.num_bits
    → q < b.num_bits
    → ((if pos == q then digit value else place b q) == 1)
      ≡ (if pos == q then ltb pos b.num_bits && value else test b q)
read_back b pos q value h k = elim (Bool-cases (pos == q)) [
  | inl same ↦
      let inside : ltb pos b.num_bits ≡ true = ground arith in rw (same, inside) (digit_back value)
  | inr other ↦ rw other (sym (test-place b q k))
]

-- Within a valid set, a bit reads what was last written to it, the other bits are as before, and a
-- place past the end is neither written nor read.
pub test-set_bit :
    (b : DynamicBitset) (pos q : ℕ) (value : Bool)
    → IsValid b
    → test (set_bit b pos value) q ≡ (if pos == q then ltb pos b.num_bits && value else test b q)
test-set_bit b pos q value v = elim (dec_le b.num_bits pos) [
  | yes out ↦ rw (set_bit-out b pos value out) (elim (Bool-cases (pos == q)) [
    | inl same ↦
        let past : ltb pos b.num_bits ≡ false = ground arith in
        let e : pos ≡ q = (==_iff pos q).0 same in rw (same, past) (test_out b q (omega arith))
    | inr other ↦ rw other refl
  ])
  | no inside ↦ elim (dec_le b.num_bits q) [
    | yes out ↦
        let apart : (pos == q) ≡ false = ground arith in
        rw apart (
          test_out (set_bit b pos value) q (omega (arith, num_bits-set_bit b pos value))
          ∙ sym (test_out b q out))
    | no within ↦
        test-place (set_bit b pos value) q (omega (arith, num_bits-set_bit b pos value))
        ∙ ap (λ t. t == 1) (place-set_bit b pos q value v (omega arith))
        ∙ read_back b pos q value (omega arith) (omega arith)
  ]
]
