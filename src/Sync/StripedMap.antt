-- ===== src/Sync/StripedMap.antt =====
-- hj/sync/striped_map.hpp: a map in buckets, each with its own lock. A call locks one bucket and works
-- on it alone; `none` as a result is the exception `out_of_range`, after which the map is as before.
pub mod Buckets
pub mod Finds
pub mod Calls
pub mod Plain
pub mod Visits
mod Tests
use high_jump.Common.{
  ℕ, zero, suc, ◌+◌, ◌%◌, Bool, true, false, Option, none, some, List, [], ◌∷◌, ◌++◌, map, length,
  get_or, set, replicate, sum_by, ltb, if◌then◌else◌,
}

-- `int`, with `negsuc n` for -1 - n.
pub data ℤ : Type 0 where
  pos : ℕ → ℤ
  negsuc : ℕ → ℤ

-- `bucket_type`, an `unordered_map` as a list of keys with their values.
module _ {ℓ κ} {K : Type ℓ} {V : Type κ} (same : K → K → Bool) where
  unfoldable pub lookup : K → List (K × V) → Option V
  lookup j [] = none
  lookup j ((k, v) ∷ b) = if same j k then some v else lookup j b

  -- `emplace` of the bucket leaves a key that is there as it is.
  pub emplace_in : K → V → List (K × V) → List (K × V)
  emplace_in k v b = elim (lookup k b) [ none ↦ (k, v) ∷ b | some w ↦ b ]

  -- An assignment to the key.
  pub assign_in : K → V → List (K × V) → List (K × V)
  assign_in k v [] = (k, v) ∷ []
  assign_in k v ((j, w) ∷ b) = if same k j then (j, v) ∷ b else (j, w) ∷ assign_in k v b

  pub erase_in : K → List (K × V) → List (K × V)
  erase_in k [] = []
  erase_in k ((j, w) ∷ b) = if same k j then b else (j, w) ∷ erase_in k b

pub record StripedMap {ℓ κ} (K : Type ℓ) (V : Type κ) : Type (ℓ ⊔ κ) where
  pub buckets : List (List (K × V))
  pub strip_fn : K → ℤ

pub construct {ℓ κ} : {K : Type ℓ} {V : Type κ} → (K → ℤ) → ℕ → StripedMap K V
construct fn capa = record { buckets = replicate capa []; strip_fn = fn }

-- The strip function of the constructor that is given none, with `hash` for `std::hash`; the conversion to
-- `int` keeps the residue, as `capa` is at most 2 ^ 31.
pub by_hash {ℓ} : {K : Type ℓ} → (K → ℕ) → ℕ → K → ℤ
by_hash hash capa k = pos (hash k % capa)

pub bucket_in : ℤ → ℕ → Option ℕ
bucket_in (pos i) n = if ltb i n then some i else none
bucket_in (negsuc i) n = none

module _ {ℓ κ} {K : Type ℓ} {V : Type κ} (same : K → K → Bool) where
  -- The bucket of a key, and none if there is no such bucket.
  pub bucket_of : StripedMap K V → K → Option ℕ
  unfolding bucket_in
  bucket_of m k = bucket_in (m.strip_fn k) (length m.buckets)

  pub change_bucket : StripedMap K V → ℕ → List (K × V) → StripedMap K V
  change_bucket m i b = record m { buckets = set m.buckets i b }

  pub emplace : StripedMap K V → K → V → Option (StripedMap K V)
  unfolding bucket_of change_bucket emplace_in
  emplace m k v = elim (bucket_of m k) [
    | none ↦ none
    | some i ↦ some (change_bucket m i (emplace_in same k v (get_or m.buckets i [])))
  ]

  pub replace : StripedMap K V → K → V → Option (StripedMap K V)
  unfolding bucket_of change_bucket assign_in
  replace m k v = elim (bucket_of m k) [
    | none ↦ none
    | some i ↦ some (change_bucket m i (assign_in same k v (get_or m.buckets i [])))
  ]

  pub find : StripedMap K V → K → Option (Option V)
  unfolding bucket_of
  find m k = elim (bucket_of m k) [
    | none ↦ none
    | some i ↦ some (lookup same k (get_or m.buckets i []))
  ]

  -- `erase`, with whether the key was there.
  pub erase : StripedMap K V → K → Option (Bool × StripedMap K V)
  unfolding bucket_of change_bucket erase_in
  erase m k = elim (bucket_of m k) [
    | none ↦ none
    | some i ↦ some (
      elim (lookup same k (get_or m.buckets i [])) [ none ↦ false | some v ↦ true ],
      change_bucket m i (erase_in same k (get_or m.buckets i [])),
    )
  ]

pub size {ℓ κ} : {K : Type ℓ} {V : Type κ} → StripedMap K V → ℕ
size m = sum_by length m.buckets

pub clear {ℓ κ} : {K : Type ℓ} {V : Type κ} → StripedMap K V → StripedMap K V
clear m = record m { buckets = map (λ b. []) m.buckets }

-- The entries that `range` hands to a function, up to the first that it refuses.
pub visit {ℓ κ} : {K : Type ℓ} {V : Type κ} → (K → V → Bool) → List (K × V) → Bool × List (K × V)
visit fn [] = (true, [])
visit fn ((k, v) ∷ b) =
    let rest = visit fn b in if fn k v then (rest.0, (k, v) ∷ rest.1) else (false, (k, v) ∷ [])

pub range_loop {ℓ κ} :
    {K : Type ℓ} {V : Type κ} → (K → V → Bool) → List (List (K × V)) → List (K × V)
unfolding visit
range_loop fn [] = []
range_loop fn (b ∷ bs) =
    let rest = range_loop fn bs in if (visit fn b).0 then (visit fn b).1 ++ rest else (visit fn b).1

pub range {ℓ κ} : {K : Type ℓ} {V : Type κ} → (K → V → Bool) → StripedMap K V → List (K × V)
unfolding range_loop
range fn m = range_loop fn m.buckets
