-- ===== src/Algo/BloomFilter/Members.antt =====
-- hj/algo/bloom_filter.hpp: what was added is found, and nothing after `clear`.
use high_jump.Common.{
  ℕ, zero, suc, ◌/◌, ◌%◌, ◌^◌, ◌<◌, ◌≤◌, ◌≡◌, refl, ◌∙◌, true, false, List, [], ◌∷◌, ltb, ◌==◌,
  ==_iff, Bool-cases, inl, inr, if◌then◌else◌, All, arith, length-replicate, get_or-replicate,
}
use native.Mathlib.Nat.{mod-lt, zero-div}
use high_jump.Algo.BloomFilter.{
  DynamicBitset, make_bitset, set_bit, test, reset, BloomFilter, clamp, construct, clear, hash_i,
  add_loop, contains_loop, add, contains,
}
use high_jump.Algo.BloomFilter.Bits.{
  IsValid, make_bitset-IsValid, set_bit-IsValid, num_bits-set_bit, test-set_bit,
}

-- The filter has as many bits as its set, and asks for one at least.
pub record IsUsable (f : BloomFilter) : Type 0 where
  pub valid : IsValid f.bits
  pub sized : f.bits.num_bits ≡ f.num_bits
  pub some_bits : 0 < f.num_bits
  pub some_hashes : 0 < f.num_hash_functions

clamp-bounds : (low high n : ℕ) → low ≤ high → (low ≤ clamp low high n) × (clamp low high n ≤ high)
unfolding clamp
clamp-bounds low high n h = (ground arith, ground arith)

-- Whatever the logarithms give, a filter as the constructor makes it is usable, with 64 to 2 ^ 16
-- bits and 1 to 16 hashes.
pub construct-IsUsable :
    (optimal_bits : ℕ → ℕ) (optimal_hashes : ℕ → ℕ → ℕ) (expected : ℕ)
    → IsUsable (construct optimal_bits optimal_hashes expected)
      × (64 ≤ (construct optimal_bits optimal_hashes expected).num_bits)
      × ((construct optimal_bits optimal_hashes expected).num_bits ≤ 2 ^ 16)
      × ((construct optimal_bits optimal_hashes expected).num_hash_functions ≤ 16)
unfolding construct make_bitset
construct-IsUsable optimal_bits optimal_hashes expected =
    let n : ℕ = if expected == 0 then 100 else expected in
    let m : ℕ = clamp 64 (2 ^ 16) (optimal_bits n) in
    let size = clamp-bounds 64 (2 ^ 16) (optimal_bits n) (omega arith) in
    let count = clamp-bounds 1 16 (optimal_hashes n m) (omega arith) in
    (
      record {
        valid = make_bitset-IsValid m (omega (arith, size.1));
        sized = refl;
        some_bits = omega (arith, size.0);
        some_hashes = omega (arith, count.0);
      },
      size.0,
      size.1,
      count.1,
    )

-- A bit that is set stays set.
set_bit-keeps :
    (b : DynamicBitset) (pos q : ℕ)
    → IsValid b
    → pos < b.num_bits
    → test b q ≡ true
    → test (set_bit b pos true) q ≡ true
set_bit-keeps b pos q v h was =
    let inside : ltb pos b.num_bits ≡ true = ground arith in
    test-set_bit b pos q true v
    ∙ rw (was, inside) (elim (Bool-cases (pos == q)) [ inl e ↦ rw e refl | inr e ↦ rw e refl ])

module _ (h : ℕ → ℕ) (m : ℕ) (some_bits : 0 < m) where
  add_loop-IsValid : (i left : ℕ) (b : DynamicBitset) → IsValid b → IsValid (add_loop h m i left b)
  unfolding add_loop
  add_loop-IsValid i zero b v = v
  add_loop-IsValid i (suc left) b v =
      add_loop-IsValid (suc i) left (set_bit b (h i % m) true) (set_bit-IsValid b (h i % m) true v)

  num_bits-add_loop :
      (i left : ℕ) (b : DynamicBitset) → (add_loop h m i left b).num_bits ≡ b.num_bits
  unfolding add_loop
  num_bits-add_loop i zero b = refl
  num_bits-add_loop i (suc left) b =
      num_bits-add_loop (suc i) left (set_bit b (h i % m) true) ∙ num_bits-set_bit b (h i % m) true

  add_loop-keeps :
      (i left : ℕ) (b : DynamicBitset) (q : ℕ)
      → IsValid b
      → b.num_bits ≡ m
      → test b q ≡ true
      → test (add_loop h m i left b) q ≡ true
  unfolding add_loop
  add_loop-keeps i zero b q v sized was = was
  add_loop-keeps i (suc left) b q v sized was =
      add_loop-keeps (suc i) left (set_bit b (h i % m) true) q (set_bit-IsValid b (h i % m) true v)
        (num_bits-set_bit b (h i % m) true ∙ sized)
        (set_bit-keeps b (h i % m) q v (omega (arith, mod-lt (h i) some_bits)) was)

  contains_loop-add_loop :
      (i left : ℕ) (b : DynamicBitset)
      → IsValid b
      → b.num_bits ≡ m
      → contains_loop h m i left (add_loop h m i left b) ≡ true
  unfolding add_loop contains_loop
  contains_loop-add_loop i zero b v sized = refl
  contains_loop-add_loop i (suc left) b v sized =
      let pos : ℕ = h i % m in
      let b' : DynamicBitset = set_bit b pos true in
      let v' : IsValid b' = set_bit-IsValid b pos true v in
      let sized' : b'.num_bits ≡ m = num_bits-set_bit b pos true ∙ sized in
      let inside : ltb pos b.num_bits ≡ true = ground (arith, mod-lt (h i) some_bits) in
      let same : (pos == pos) ≡ true = (==_iff pos pos).1 refl in
      let now : test b' pos ≡ true = test-set_bit b pos pos true v ∙ rw (same, inside) refl in
      let kept : test (add_loop h m (suc i) left b') pos ≡ true =
        add_loop-keeps (suc i) left b' pos v' sized' now in
      rw kept (contains_loop-add_loop (suc i) left b' v' sized')

  contains_loop_mono :
      (i left : ℕ) (b b' : DynamicBitset)
      → ((q : ℕ) → test b q ≡ true → test b' q ≡ true)
      → contains_loop h m i left b ≡ true
      → contains_loop h m i left b' ≡ true
  unfolding contains_loop
  contains_loop_mono i zero b b' keeps was = refl
  contains_loop_mono i (suc left) b b' keeps was = elim (Bool-cases (test b (h i % m))) [
    | inl set ↦
        rw (keeps (h i % m) set) (contains_loop_mono (suc i) left b b' keeps (rw set at was))
    | inr unset ↦ ground (arith, was)
  ]

-- The bits that `add` sets for one value do not touch those of another.
pub add-IsUsable {ℓ} :
    {T : Type ℓ} (h1 : T → ℕ) (h2 : ℕ → ℕ) (v : T) (f : BloomFilter)
    → IsUsable f
    → IsUsable (add h1 h2 v f)
unfolding add
add-IsUsable h1 h2 v f u = record {
  valid =
      add_loop-IsValid (hash_i h1 h2 v) f.num_bits u.some_bits 0 f.num_hash_functions f.bits
        u.valid;
  sized =
      num_bits-add_loop (hash_i h1 h2 v) f.num_bits u.some_bits 0 f.num_hash_functions f.bits
      ∙ u.sized;
  some_bits = u.some_bits;
  some_hashes = u.some_hashes;
}

contains-add {ℓ} :
    {T : Type ℓ} (h1 : T → ℕ) (h2 : ℕ → ℕ) (v : T) (f : BloomFilter)
    → IsUsable f
    → contains h1 h2 v (add h1 h2 v f) ≡ true
unfolding add contains
contains-add h1 h2 v f u =
    contains_loop-add_loop (hash_i h1 h2 v) f.num_bits u.some_bits 0 f.num_hash_functions f.bits
      u.valid u.sized

contains-add_other {ℓ} :
    {T : Type ℓ} (h1 : T → ℕ) (h2 : ℕ → ℕ) (v w : T) (f : BloomFilter)
    → IsUsable f
    → contains h1 h2 w f ≡ true
    → contains h1 h2 w (add h1 h2 v f) ≡ true
unfolding add contains
contains-add_other h1 h2 v w f u was =
    let b' = add_loop (hash_i h1 h2 v) f.num_bits 0 f.num_hash_functions f.bits in
    contains_loop_mono (hash_i h1 h2 w) f.num_bits u.some_bits 0 f.num_hash_functions f.bits b'
      (λ q.
        add_loop-keeps (hash_i h1 h2 v) f.num_bits u.some_bits 0 f.num_hash_functions f.bits q
          u.valid u.sized)
      was

-- The filter after values were added, the last one of the list first.
abbrev pub add_all {ℓ} : {T : Type ℓ} → (T → ℕ) → (ℕ → ℕ) → List T → BloomFilter → BloomFilter
add_all h1 h2 [] f = f
add_all h1 h2 (v ∷ vs) f = add h1 h2 v (add_all h1 h2 vs f)

add_all-IsUsable {ℓ} :
    {T : Type ℓ} (h1 : T → ℕ) (h2 : ℕ → ℕ) (vs : List T) (f : BloomFilter)
    → IsUsable f
    → IsUsable (add_all h1 h2 vs f)
add_all-IsUsable h1 h2 [] f u = u
add_all-IsUsable h1 h2 (v ∷ vs) f u =
    add-IsUsable h1 h2 v (add_all h1 h2 vs f) (add_all-IsUsable h1 h2 vs f u)

All-add :
    {T : Type 0} (h1 : T → ℕ) (h2 : ℕ → ℕ) (v : T) (ws : List T) (f : BloomFilter)
    → IsUsable f
    → All (λ w. contains h1 h2 w f ≡ true) ws
    → All (λ w. contains h1 h2 w (add h1 h2 v f) ≡ true) ws
All-add h1 h2 v [] f u a = tt
All-add h1 h2 v (w ∷ ws) f u (was, a) =
    (contains-add_other h1 h2 v w f u was, All-add h1 h2 v ws f u a)

-- Whatever the two hash functions are, every value that was added to a usable filter is found in it,
-- in whatever order and number the values came.
pub add_all_found :
    {T : Type 0} (h1 : T → ℕ) (h2 : ℕ → ℕ) (vs : List T) (f : BloomFilter)
    → IsUsable f
    → All (λ w. contains h1 h2 w (add_all h1 h2 vs f) ≡ true) vs
add_all_found h1 h2 [] f u = tt
add_all_found h1 h2 (v ∷ vs) f u =
    let g : BloomFilter = add_all h1 h2 vs f in
    let usable : IsUsable g = add_all-IsUsable h1 h2 vs f u in
    (contains-add h1 h2 v g usable, All-add h1 h2 v vs g usable (add_all_found h1 h2 vs f u))

test-reset : (b : DynamicBitset) (pos : ℕ) → test (reset b) pos ≡ false
unfolding test reset
test-reset b pos =
    rw (get_or-replicate {A = ℕ} b.num_words (pos / 64) 0, zero-div (2 ^ (pos % 64))) (ground arith)

contains_loop-none :
    (h : ℕ → ℕ) (m i left : ℕ) (b : DynamicBitset)
    → ((q : ℕ) → test b q ≡ false)
    → 0 < left
    → contains_loop h m i left b ≡ false
unfolding contains_loop
contains_loop-none h m i zero b unset some = absurd (omega arith)
contains_loop-none h m i (suc left) b unset some = rw (unset (h i % m)) refl

reset-IsValid : (b : DynamicBitset) → IsValid b → IsValid (reset b)
unfolding reset
reset-IsValid b v = record { words = length-replicate {A = ℕ} b.num_words 0; enough = v.enough }

-- After `clear` a usable filter finds no value at all, and is usable.
pub contains-clear :
    {T : Type 0} (h1 : T → ℕ) (h2 : ℕ → ℕ) (v : T) (f : BloomFilter)
    → IsUsable f
    → (contains h1 h2 v (clear f) ≡ false) × IsUsable (clear f)
unfolding contains clear
contains-clear h1 h2 v f u = (
  contains_loop-none (hash_i h1 h2 v) f.num_bits 0 f.num_hash_functions (reset f.bits)
      (test-reset f.bits) u.some_hashes,
  record {
    valid = reset-IsValid f.bits u.valid;
    sized = u_sized;
    some_bits = u.some_bits;
    some_hashes = u.some_hashes;
  },
)
  where
    u_sized : (reset f.bits).num_bits ≡ f.num_bits
    u_sized = unfold reset in u.sized
