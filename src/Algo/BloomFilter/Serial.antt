-- ===== src/Algo/BloomFilter/Serial.antt =====
-- hj/algo/bloom_filter.hpp: a filter written out and read back.
use high_jump.Common.{
  ℕ, zero, suc, ◌+◌, ◌<◌, ◌≡◌, refl, sym, ap, ◌∙◌, Bool, true, false, List, [], ◌∷◌, ltb, leb, ◌==◌,
  ==_iff, Bool-cases, inl, inr, if◌then◌else◌, arith, length,
}
use native.Mathlib.Decide.{dec_le}
use high_jump.Algo.BloomFilter.{
  DynamicBitset, set_bit, test, BloomFilter, serialize_loop, serialize, unserialize_loop,
  unserialize,
}
use high_jump.Algo.BloomFilter.Bits.{
  IsValid, set_bit-IsValid, num_bits-set_bit, test-set_bit, test_out,
}
use high_jump.Algo.BloomFilter.Members.{IsUsable}

length-serialize_loop : (b : DynamicBitset) (i left : ℕ) → length (serialize_loop b i left) ≡ left
unfolding serialize_loop
length-serialize_loop b i zero = refl
length-serialize_loop b i (suc left) = ap suc (length-serialize_loop b (suc i) left)

written_bit : (value : Bool) → ((if value then b'1' else b'0') == b'1') ≡ value
written_bit true = refl
written_bit false = refl

-- The bits from `i` on are those written, the others are as before.
module _ (b : DynamicBitset) where
  one_round :
      (i q : ℕ) (c : DynamicBitset)
      → IsValid c
      → i < c.num_bits
      → (if leb (suc i) q then test b q else test (set_bit c i (test b i)) q)
        ≡ (if leb i q then test b q else test c q)
  one_round i q c v inside =
      let below : ltb i c.num_bits ≡ true = ground arith in
      elim (Bool-cases (i == q)) [
        | inl same ↦
            let e : i ≡ q = (==_iff i q).0 same in
            let next : leb (suc i) q ≡ false = ground arith in
            let here : leb i q ≡ true = ground arith in
            rw (next, here) (test-set_bit c i q (test b i) v ∙ rw (same, below) (ap (test b) e))
        | inr other ↦
            let agree : leb (suc i) q ≡ leb i q = ground arith in
            rw agree (
              ap (λ t. if leb i q then test b q else t)
                (test-set_bit c i q (test b i) v ∙ rw other refl))
      ]

  unserialize_loop-test :
      (i left q : ℕ) (c : DynamicBitset)
      → IsValid c
      → i + left ≡ c.num_bits
      → q < c.num_bits
      → test (unserialize_loop i (serialize_loop b i left) c) q
        ≡ (if leb i q then test b q else test c q)
  unfolding unserialize_loop serialize_loop
  unserialize_loop-test i zero q c v sized high =
      let before : leb i q ≡ false = ground arith in rw before refl
  unserialize_loop-test i (suc left) q c v sized high =
      let c' : DynamicBitset = set_bit c i (test b i) in
      ap (λ t. test (unserialize_loop (suc i) (serialize_loop b (suc i) left) (set_bit c i t)) q)
        (written_bit (test b i))
      ∙ unserialize_loop-test (suc i) left q c' (set_bit-IsValid c i (test b i) v)
          (omega (arith, num_bits-set_bit c i (test b i)))
          (omega (arith, num_bits-set_bit c i (test b i)))
      ∙ one_round i q c v (omega arith)

num_bits-unserialize_loop :
    (i : ℕ) (s : List ℕ) (b : DynamicBitset) → (unserialize_loop i s b).num_bits ≡ b.num_bits
unfolding unserialize_loop
num_bits-unserialize_loop i [] b = refl
num_bits-unserialize_loop i (c ∷ s) b =
    num_bits-unserialize_loop (suc i) s (set_bit b i (c == b'1')) ∙ num_bits-set_bit b i (c == b'1')

read_all :
    (n q : ℕ) (b c : DynamicBitset)
    → IsValid c
    → b.num_bits ≡ n
    → c.num_bits ≡ n
    → test (unserialize_loop 0 (serialize_loop b 0 n) c) q ≡ test b q
read_all n q b c v sized sized' = elim (dec_le n q) [
  | yes out ↦
      test_out (unserialize_loop 0 (serialize_loop b 0 n) c) q
        (omega (arith, num_bits-unserialize_loop 0 (serialize_loop b 0 n) c))
      ∙ sym (test_out b q (omega arith))
  | no inside ↦
      let first : leb 0 q ≡ true = ground arith in
      rw first at (unserialize_loop-test b 0 n q c v (omega arith) (omega arith))
]

-- Reading back what `serialize` wrote gives a usable filter of the same size the same bits, and so
-- the same answers.
pub unserialize-serialize :
    (f g : BloomFilter) (q : ℕ)
    → IsUsable f
    → IsUsable g
    → g.num_bits ≡ f.num_bits
    → ((unserialize (serialize f) g).0 ≡ true)
      × (test (unserialize (serialize f) g).1.bits q ≡ test f.bits q)
unfolding unserialize serialize
unserialize-serialize f g q u w same =
    let fits : (length (serialize_loop f.bits 0 f.num_bits) == g.num_bits) ≡ true =
      (==_iff (length (serialize_loop f.bits 0 f.num_bits)) g.num_bits).1
        (length-serialize_loop f.bits 0 f.num_bits ∙ sym same) in
    rw fits (refl, read_all f.num_bits q f.bits g.bits w.valid u.sized (w.sized ∙ same))
