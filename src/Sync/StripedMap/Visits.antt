-- ===== src/Sync/StripedMap/Visits.antt =====
-- hj/sync/striped_map.hpp: the entries that `range` visits, and their number.
use high_jump.Common.{
  ◌≡◌, refl, sym, Bool, true, false, Bool-cases, inl, inr, List, [], ◌∷◌, ◌++◌, length,
  length-append, sum_by, arith, if◌then◌else◌,
}
use high_jump.Sync.StripedMap.{StripedMap, visit, range_loop, range, size}

cons_if {ℓ} :
    {A : Type ℓ} (x : A) (c : Bool) (xs ys : List A)
    → x ∷ (if c then xs else ys) ≡ (if c then x ∷ xs else x ∷ ys)
cons_if x true xs ys = refl
cons_if x false xs ys = refl

module _ {ℓ κ} {K : Type ℓ} {V : Type κ} (fn : K → V → Bool) where
  -- The entries up to the first that the function refuses.
  unfoldable pub up_to_refused : List (K × V) → List (K × V)
  up_to_refused [] = []
  up_to_refused ((k, v) ∷ b) =
      let rest = up_to_refused b in if fn k v then (k, v) ∷ rest else (k, v) ∷ []

  visit-append :
      (b rest : List (K × V))
      → up_to_refused (b ++ rest)
        ≡ (if (visit fn b).0 then (visit fn b).1 ++ up_to_refused rest else (visit fn b).1)
  unfolding up_to_refused visit
  visit-append [] rest = refl
  visit-append ((k, v) ∷ b) rest = elim (Bool-cases (fn k v)) [
    | inl t ↦ rw t (
        rw (visit-append b rest)
          (cons_if (k, v) (visit fn b).0 ((visit fn b).1 ++ up_to_refused rest) (visit fn b).1))
    | inr t ↦ rw t refl
  ]

module _ {ℓ κ} {K : Type ℓ} {V : Type κ} where
  -- All entries, bucket by bucket.
  unfoldable pub entries : List (List (K × V)) → List (K × V)
  entries [] = []
  entries (b ∷ bs) = b ++ entries bs

  range_loop-entries :
      (fn : K → V → Bool) (bs : List (List (K × V)))
      → range_loop fn bs ≡ up_to_refused fn (entries bs)
  unfolding range_loop entries up_to_refused
  range_loop-entries fn [] = refl
  range_loop-entries fn (b ∷ bs) =
      rw (range_loop-entries fn bs) (sym (visit-append fn b (entries bs)))

  length-entries : (bs : List (List (K × V))) → length (entries bs) ≡ sum_by length bs
  unfolding entries
  length-entries [] = refl
  length-entries (b ∷ bs) = omega (arith, length-append b (entries bs), length-entries bs)

  -- `range` visits the entries bucket by bucket, up to the first that the function refuses, and `size`
  -- is the number of the entries.
  pub range-entries :
      (fn : K → V → Bool) (m : StripedMap K V)
      → (range fn m ≡ up_to_refused fn (entries m.buckets)) × (size m ≡ length (entries m.buckets))
  unfolding range size
  range-entries fn m = (range_loop-entries fn m.buckets, sym (length-entries m.buckets))
