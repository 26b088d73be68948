-- ===== src/Sync/StripedMap/Buckets.antt =====
-- hj/sync/striped_map.hpp: the laws of one bucket.
use high_jump.Common.{
  ◌≡◌, refl, ◌∙◌, Bool, true, false, Bool-cases, inl, inr, Option, none, some, List, [], ◌∷◌, arith,
  if◌then◌else◌,
}
use high_jump.Sync.StripedMap.{lookup, emplace_in, assign_in, erase_in}

-- The equality of keys.
pub record SameKey {ℓ} {K : Type ℓ} (same : K → K → Bool) : Type ℓ where
  pub itself : (a : K) → same a a ≡ true
  pub only : (a b : K) → same a b ≡ true → a ≡ b

module _ {ℓ} {K : Type ℓ} (same : K → K → Bool) (law : SameKey same) where
  -- Two keys that are the same as a third are the same.
  same_both : (j a k : K) → same j a ≡ true → same j k ≡ true → same k a ≡ true
  same_both j a k h g = rw (← law.only j a h, ← law.only j k g) (law.itself j)

module _ {ℓ κ} {K : Type ℓ} {V : Type κ} (same : K → K → Bool) (law : SameKey same) where
  -- No key stands twice.
  abbrev pub Unique : List (K × V) → Type κ
  Unique [] = Unit {κ}
  Unique ((k, v) ∷ b) = (lookup same k b ≡ none) × Unique b

  pub lookup-assign_in :
      (j k : K) (v : V) (b : List (K × V))
      → lookup same j (assign_in same k v b) ≡ (if same j k then some v else lookup same j b)
  unfolding lookup assign_in
  lookup-assign_in j k v [] = refl
  lookup-assign_in j k v ((a, w) ∷ b) = elim (Bool-cases (same k a)) [
    | inl t ↦ rw t (rw (law.only k a t) (ground arith))
    | inr t ↦ rw (t, lookup-assign_in j k v b) (ground (arith, same_both same law j a k))
  ]

  lookup-cons :
      (j k : K) (v : V) (b : List (K × V))
      → lookup same j ((k, v) ∷ b) ≡ (if same j k then some v else lookup same j b)
  unfolding lookup
  lookup-cons j k v b = refl

  pub emplace_in-none :
      (k : K) (v : V) (b : List (K × V))
      → lookup same k b ≡ none
      → emplace_in same k v b ≡ (k, v) ∷ b
  unfolding emplace_in
  emplace_in-none k v b e = rw (e, emplace_in) refl

  pub emplace_in-some :
      (k : K) (v : V) (b : List (K × V)) {w : V}
      → lookup same k b ≡ some w
      → emplace_in same k v b ≡ b
  unfolding emplace_in
  emplace_in-some k v b e = rw (e, emplace_in) refl

  pub lookup-emplace_in :
      (j k : K) (v : V) (b : List (K × V))
      → lookup same j (emplace_in same k v b) ≡ (
          if same j k
          then some (elim (lookup same k b) as (λ o. V) [ none ↦ v | some w ↦ w ])
          else lookup same j b)
  lookup-emplace_in j k v b = lookup_by j k v b (lookup same k b) refl
    where
      lookup_by :
          (j k : K) (v : V) (b : List (K × V)) (o : Option V)
          → lookup same k b ≡ o
          → lookup same j (emplace_in same k v b) ≡ (
              if same j k
              then some (elim o as (λ o. V) [ none ↦ v | some w ↦ w ])
              else lookup same j b)
      lookup_by j k v b none e = rw (emplace_in-none k v b e, lookup-cons j k v b) refl
      lookup_by j k v b (some w) e = rw (emplace_in-some k v b e) (elim (Bool-cases (same j k)) [
        | inl h ↦ rw h (rw (law.only j k h) e)
        | inr h ↦ rw h refl
      ])

  pub lookup-erase_in :
      (j k : K) (b : List (K × V))
      → Unique b
      → lookup same j (erase_in same k b) ≡ (if same j k then none else lookup same j b)
  unfolding lookup erase_in
  lookup-erase_in j k [] u = ground arith
  lookup-erase_in j k ((a, w) ∷ b) (u, us) = elim (Bool-cases (same k a)) [
    | inl t ↦ rw t (
        rw (law.only k a t) (elim (Bool-cases (same j a)) [
          | inl h ↦ rw h (rw (law.only j a h) u)
          | inr h ↦ rw h refl
        ]))
    | inr t ↦ rw (t, lookup-erase_in j k b us) (ground (arith, same_both same law j a k))
  ]

  pub Unique-assign_in :
      (k : K) (v : V) (b : List (K × V)) → Unique b → Unique (assign_in same k v b)
  unfolding lookup assign_in
  Unique-assign_in k v [] u = (refl, tt)
  Unique-assign_in k v ((a, w) ∷ b) (u, us) = elim (Bool-cases (same k a)) [
    | inl t ↦ rw t (u, us)
    | inr t ↦
        let h : same a k ≡ false =
          ground (arith, same_both same law a k a, law.itself a, law.only a k) in
        rw t (lookup-assign_in a k v b ∙ (rw h u), Unique-assign_in k v b us)
  ]

  pub Unique-erase_in : (k : K) (b : List (K × V)) → Unique b → Unique (erase_in same k b)
  unfolding lookup erase_in
  Unique-erase_in k [] u = tt
  Unique-erase_in k ((a, w) ∷ b) (u, us) = elim (Bool-cases (same k a)) [
    | inl t ↦ rw t us
    | inr t ↦ rw t (lookup-erase_in a k b us ∙ (rw u (ground arith)), Unique-erase_in k b us)
  ]

  pub Unique-emplace_in :
      (k : K) (v : V) (b : List (K × V)) → Unique b → Unique (emplace_in same k v b)
  Unique-emplace_in k v b u = unique_by k v b (lookup same k b) refl u
    where
      unique_by :
          (k : K) (v : V) (b : List (K × V)) (o : Option V)
          → lookup same k b ≡ o
          → Unique b
          → Unique (emplace_in same k v b)
      unique_by k v b none e u = rw (emplace_in-none k v b e) (e, u)
      unique_by k v b (some w) e u = rw (emplace_in-some k v b e) u
