-- ===== src/Algo/BloomFilter.antt =====
-- hj/algo/bloom_filter.hpp: a set of bits in words of 64, and the filter on it. What uses floating
-- point and `std::hash` are parameters.
pub mod Bits
pub mod Members
pub mod Serial
mod Tests
use Prim.Native.Nat.{bit_and, bit_or}
use high_jump.Common.{
  ℕ, zero, suc, ◌+◌, ◌-◌, ◌*◌, ◌/◌, ◌%◌, ◌^◌, Bool, true, false, List, [], ◌∷◌, ◌++◌, ltb, leb,
  ◌==◌, if◌then◌else◌, length, set, get_or, replicate,
}

-- `detail::dynamic_bitset`.
pub record DynamicBitset : Type 0 where
  pub num_bits : ℕ
  pub num_words : ℕ
  pub data_words : List ℕ

pub make_bitset : ℕ → DynamicBitset
make_bitset n = record {
  num_bits = n;
  num_words = (n + 63) % 2 ^ 64 / 64;
  data_words = replicate ((n + 63) % 2 ^ 64 / 64) 0;
}

-- `uint64_t(1) << bit`, for a bit below 64.
pub one_bit : ℕ → ℕ
one_bit bit = 2 ^ bit

pub change_word : Bool → ℕ → ℕ → ℕ
change_word value bit w =
    if value then bit_or w (one_bit bit) else bit_and w (2 ^ 64 - 1 - one_bit bit)

pub set_bit : DynamicBitset → ℕ → Bool → DynamicBitset
set_bit b pos value =
    let word = pos / 64 in
    let bit = pos % 64 in
    if leb b.num_bits pos then b else record b {
      data_words = set b.data_words word (change_word value bit (get_or b.data_words word 0));
    }

pub test : DynamicBitset → ℕ → Bool
test b pos =
    let word = pos / 64 in
    let bit = pos % 64 in
    if leb b.num_bits pos then false else bit_and (get_or b.data_words word 0 / 2 ^ bit) 1 == 1

pub reset : DynamicBitset → DynamicBitset
reset b = record b { data_words = replicate b.num_words 0 }

-- The fields that the operations use.
pub record BloomFilter : Type 0 where
  pub num_bits : ℕ
  pub num_hash_functions : ℕ
  pub bits : DynamicBitset

pub clamp : ℕ → ℕ → ℕ → ℕ
clamp low high n =
    let raised = if ltb n low then low else n in if ltb high raised then high else raised

-- `optimal_bits` is `_optimal_num_of_bits` at the rate, once that is made valid, and `optimal_hashes`
-- is `_optimal_num_of_hash_functions`: they compute with logarithms.
pub construct : (optimal_bits : ℕ → ℕ) (optimal_hashes : ℕ → ℕ → ℕ) → ℕ → BloomFilter
construct optimal_bits optimal_hashes expected =
    let n = if expected == 0 then 100 else expected in
    let m = clamp 64 (2 ^ 16) (optimal_bits n) in
    record {
      num_bits = m;
      num_hash_functions = clamp 1 16 (optimal_hashes n m);
      bits = make_bitset m;
    }

pub clear : BloomFilter → BloomFilter
clear f = record f { bits = reset f.bits }

-- `h1` and `h2` are `std::hash` of the value type and of `size_t`.
pub hash_i {ℓ} : {T : Type ℓ} → (T → ℕ) → (ℕ → ℕ) → T → ℕ → ℕ
hash_i h1 h2 value i =
    let hval = h1 value in bit_and ((hval + i * h2 hval) % 2 ^ 64) 0x7fff_ffff_ffff_ffff

-- The loop of `add`: `left` rounds from `i` on, for the hash `h i`.
pub add_loop : (ℕ → ℕ) → ℕ → ℕ → ℕ → DynamicBitset → DynamicBitset
add_loop h m i zero b = b
add_loop h m i (suc left) b = add_loop h m (suc i) left (set_bit b (h i % m) true)

pub contains_loop : (ℕ → ℕ) → ℕ → ℕ → ℕ → DynamicBitset → Bool
contains_loop h m i zero b = true
contains_loop h m i (suc left) b =
    if test b (h i % m) then contains_loop h m (suc i) left b else false

pub add {ℓ} : {T : Type ℓ} → (T → ℕ) → (ℕ → ℕ) → T → BloomFilter → BloomFilter
add h1 h2 value f = record f {
  bits = add_loop (hash_i h1 h2 value) f.num_bits 0 f.num_hash_functions f.bits;
}

pub contains {ℓ} : {T : Type ℓ} → (T → ℕ) → (ℕ → ℕ) → T → BloomFilter → Bool
contains h1 h2 value f = contains_loop (hash_i h1 h2 value) f.num_bits 0 f.num_hash_functions f.bits

pub serialize_loop : DynamicBitset → ℕ → ℕ → List ℕ
serialize_loop b i zero = []
serialize_loop b i (suc left) = (if test b i then b'1' else b'0') ∷ serialize_loop b (suc i) left

pub serialize : BloomFilter → List ℕ
serialize f = serialize_loop f.bits 0 f.num_bits

pub unserialize_loop : ℕ → List ℕ → DynamicBitset → DynamicBitset
unserialize_loop i [] b = b
unserialize_loop i (c ∷ s) b = unserialize_loop (suc i) s (set_bit b i (c == b'1'))

pub unserialize : List ℕ → BloomFilter → Bool × BloomFilter
unserialize s f =
    if length s == f.num_bits
    then (true, record f { bits = unserialize_loop 0 s f.bits })
    else (false, f)
