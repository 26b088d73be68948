-- ===== src/Algo/BloomFilter/Tests.antt =====
-- hj/algo/bloom_filter.hpp: runs, and the theorems at them.
use high_jump.Common.{ℕ, ◌+◌, ◌*◌, ◌≡◌, refl, true, false, [], ◌∷◌, All}
use high_jump.Algo.BloomFilter.{
  make_bitset, set_bit, test, change_word, one_bit, BloomFilter, construct, add, contains,
  serialize, unserialize,
}
use high_jump.Algo.BloomFilter.Members.{construct-IsUsable, add_all, add_all_found, add-IsUsable}
use high_jump.Algo.BloomFilter.Serial.{unserialize-serialize}

-- A filter of 64 bits and 3 hashes, for numbers.
abbrev small : BloomFilter
small = construct (λ n. n) (λ n m. 3) 50

abbrev hash_value : ℕ → ℕ
hash_value n = n * 7 + 1

abbrev hash_size : ℕ → ℕ
hash_size n = n + 5

set_and_reset : test (set_bit (set_bit (make_bitset 100) 70 true) 70 false) 70 ≡ false
unfolding test set_bit make_bitset change_word one_bit
set_and_reset = refl

add_all_found_example :
    All
      (λ w.
        contains hash_value hash_size w (add_all hash_value hash_size (4 ∷ 9 ∷ []) small) ≡ true)
      (4 ∷ 9 ∷ [])
add_all_found_example =
    add_all_found hash_value hash_size (4 ∷ 9 ∷ []) small
      (construct-IsUsable (λ n. n) (λ n m. 3) 50).0

unserialize-serialize_example :
    ((unserialize (serialize (add hash_value hash_size 4 small)) small).0 ≡ true)
    × (test (unserialize (serialize (add hash_value hash_size 4 small)) small).1.bits 29
        ≡ test (add hash_value hash_size 4 small).bits 29)
unfolding add construct
unserialize-serialize_example =
    unserialize-serialize (add hash_value hash_size 4 small) small 29
      (add-IsUsable hash_value hash_size 4 small (construct-IsUsable (λ n. n) (λ n m. 3) 50).0)
      (construct-IsUsable (λ n. n) (λ n m. 3) 50).0 refl
