-- ===== src/Sync/StripedMap/Finds.antt =====
-- hj/sync/striped_map.hpp: what `find` returns after a change of one bucket.
use high_jump.Common.{
  ℕ, ◌<◌, ◌≡◌, refl, sym, ap, ◌∙◌, Bool, false, Bool-cases, inl, inr, Option, none, some, List, [],
  length, length-set, get_or, get_or-set, arith, ◌==◌, if◌then◌else◌,
}
use high_jump.Sync.StripedMap.{
  ℤ, pos, negsuc, bucket_in, StripedMap, lookup, bucket_of, change_bucket, find,
}
use high_jump.Sync.StripedMap.Buckets.{SameKey, Unique}

-- What `find` should return for a key, whether it has a bucket or not.
abbrev pub answer {κ} : {V : Type κ} → Option ℕ → Option V → Option (Option V)
answer none v = none
answer (some i) v = some v

bucket_in-bound : (z : ℤ) (n : ℕ) {i : ℕ} → bucket_in z n ≡ some i → i < n
unfolding bucket_in
bucket_in-bound (pos j) n e = ground arith
bucket_in-bound (negsuc j) n e = ground arith

module _ {ℓ κ} {K : Type ℓ} {V : Type κ} (same : K → K → Bool) (law : SameKey same) where
  -- Every bucket holds a key once, and `find` answers as the plain map does.
  pub record Shows (m : StripedMap K V) (f : K → Option V) : Type (ℓ ⊔ κ) where
    pub unique : (i : ℕ) → Unique same law (get_or m.buckets i [])
    pub finds : (j : K) → find same m j ≡ answer (bucket_of same m j) (f j)

  bucket_of-change_bucket :
      (m : StripedMap K V) (i : ℕ) (b : List (K × V)) (j : K)
      → bucket_of same (change_bucket same m i b) j ≡ bucket_of same m j
  unfolding bucket_of change_bucket
  bucket_of-change_bucket m i b j = ap (bucket_in (m.strip_fn j)) (length-set m.buckets i b)

  bucket_of-bound :
      (m : StripedMap K V) (k : K) {i : ℕ} → bucket_of same m k ≡ some i → i < length m.buckets
  unfolding bucket_of
  bucket_of-bound m k e = bucket_in-bound (m.strip_fn k) (length m.buckets) e

  pub find-some :
      (m : StripedMap K V) (j : K) {i : ℕ}
      → bucket_of same m j ≡ some i
      → find same m j ≡ some (lookup same j (get_or m.buckets i []))
  unfolding find
  find-some m j e = rw (e, find) refl

  pub find-none : (m : StripedMap K V) (j : K) → bucket_of same m j ≡ none → find same m j ≡ none
  unfolding find
  find-none m j e = rw (e, find) refl

  -- A change of the bucket of one key, seen through every key.
  module _ (m : StripedMap K V) (f : K → Option V) (shows : Shows m f) (k : K) (i : ℕ)
      (here : bucket_of same m k ≡ some i) (b : List (K × V)) (o : Option V)
      (unique : Unique same law b)
      (looks : (j : K)
        → lookup same j b ≡ (if same j k then o else lookup same j (get_or m.buckets i []))) where
    abbrev changed : StripedMap K V
    changed = change_bucket same m i b

    change-Unique : (n : ℕ) → Unique same law (get_or changed.buckets n [])
    unfolding change_bucket
    change-Unique n =
        rw (get_or-set m.buckets i n b [] (bucket_of-bound m k here))
          (elim (Bool-cases (i == n)) [ inl t ↦ rw t unique | inr t ↦ rw t (shows.unique n) ])

    changed-bucket :
        (n : ℕ) → get_or changed.buckets n [] ≡ (if i == n then b else get_or m.buckets n [])
    unfolding change_bucket
    changed-bucket n = get_or-set m.buckets i n b [] (bucket_of-bound m k here)

    apart : (j : K) (n : ℕ) → bucket_of same m j ≡ some n → (i == n) ≡ false → same j k ≡ false
    apart j n e t = elim (Bool-cases (same j k)) [
      | inl h ↦
          let d : some i ≡ some n = sym here ∙ (rw (← law.only j k h) e) in absurd (ground arith)
      | inr h ↦ h
    ]

    change-looks :
        (j : K) (n : ℕ)
        → bucket_of same m j ≡ some n
        → lookup same j (get_or changed.buckets n []) ≡ (if same j k then o else f j)
    change-looks j n e =
        let found : some (lookup same j (get_or m.buckets n [])) ≡ some (f j) =
          sym (find-some m j e) ∙ shows.finds j ∙ (rw e refl) in
        let old : lookup same j (get_or m.buckets n []) ≡ f j = ground arith in
        elim (Bool-cases (i == n)) [
          | inl t ↦
              let d : i ≡ n = ground arith in
              ap (lookup same j) (changed-bucket n) ∙ (rw (t, looks j, d, old) refl)
          | inr t ↦
              let other : same j k ≡ false = apart j n e t in
              ap (lookup same j) (changed-bucket n) ∙ (rw (t, other, old) refl)
        ]

    change-finds :
        (j : K)
        → find same changed j ≡ answer (bucket_of same changed j) (if same j k then o else f j)
    change-finds j = finds_by (bucket_of same m j) refl
      where
        finds_by :
            (n : Option ℕ)
            → bucket_of same m j ≡ n
            → find same changed j ≡ answer (bucket_of same changed j) (if same j k then o else f j)
        finds_by none e =
            let e' = bucket_of-change_bucket m i b j ∙ e in rw (find-none changed j e', e') refl
        finds_by (some n) e =
            let e' = bucket_of-change_bucket m i b j ∙ e in
            rw (find-some changed j e', e') (ap some (change-looks j n e))

    pub change-Shows : Shows changed (λ j. if same j k then o else f j)
    change-Shows = record { unique = change-Unique; finds = change-finds }
