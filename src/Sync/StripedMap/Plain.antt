-- ===== src/Sync/StripedMap/Plain.antt =====
-- hj/sync/striped_map.hpp: the striped map against a plain map, by the buckets of the constructor.
use high_jump.Common.{
  ℕ, ◌≡◌, refl, ap, ◌∙◌, Bool, Option-cases, none, inl, inr, List, [], ◌∷◌, length, length-set,
  length-map, length-replicate,
}
use high_jump.Sync.StripedMap.{
  ℤ, StripedMap, construct, bucket_in, bucket_of, change_bucket, emplace, replace, find, erase,
  clear,
}
use high_jump.Sync.StripedMap.Buckets.{SameKey}
use high_jump.Sync.StripedMap.Finds.{answer}
use high_jump.Sync.StripedMap.Calls.{
  Call, put_new, put, drop, drop_all, or_else, or_else_second, call, calls, plain_calls,
  calls-Shows_new,
}

-- The strip function and the number of buckets.
record Keeps {ℓ κ} {K : Type ℓ} {V : Type κ} (fn : K → ℤ) (capa : ℕ) (m : StripedMap K V)
    : Type ℓ where
  strip : m.strip_fn ≡ fn
  count : length m.buckets ≡ capa

module _ {ℓ κ} {K : Type ℓ} {V : Type κ} (same : K → K → Bool) (fn : K → ℤ) (capa : ℕ) where
  change_bucket-Keeps :
      (m : StripedMap K V) (i : ℕ) (b : List (K × V))
      → Keeps fn capa m
      → Keeps fn capa (change_bucket same m i b)
  unfolding change_bucket
  change_bucket-Keeps m i b h = record {
    strip = h.strip;
    count = length-set m.buckets i b ∙ h.count;
  }

  call-Keeps : (m : StripedMap K V) (c : Call K V) → Keeps fn capa m → Keeps fn capa (call same m c)
  unfolding call or_else or_else_second emplace replace erase clear
  call-Keeps m (put_new k v) h = elim (Option-cases (bucket_of same m k)) [
    | inl e ↦ rw (e, emplace) h
    | inr (i, e) ↦ rw (e, emplace) (change_bucket-Keeps m i _ h)
  ]
  call-Keeps m (put k v) h = elim (Option-cases (bucket_of same m k)) [
    | inl e ↦ rw (e, replace) h
    | inr (i, e) ↦ rw (e, replace) (change_bucket-Keeps m i _ h)
  ]
  call-Keeps m (drop k) h = elim (Option-cases (bucket_of same m k)) [
    | inl e ↦ rw (e, erase) h
    | inr (i, e) ↦ rw (e, erase) (change_bucket-Keeps m i _ h)
  ]
  call-Keeps m drop_all h = record {
    strip = h.strip;
    count = length-map m.buckets (λ b. []) ∙ h.count;
  }

  calls-Keeps :
      (m : StripedMap K V) (cs : List (Call K V))
      → Keeps fn capa m
      → Keeps fn capa (calls same m cs)
  unfolding calls
  calls-Keeps m [] h = h
  calls-Keeps m (c ∷ cs) h = calls-Keeps (call same m c) cs (call-Keeps m c h)

  construct-Keeps : Keeps {V = V} fn capa (construct fn capa)
  unfolding construct
  construct-Keeps = record { strip = refl; count = length-replicate capa [] }

  bucket_of-Keeps :
      (m : StripedMap K V) (j : K) → Keeps fn capa m → bucket_of same m j ≡ bucket_in (fn j) capa
  unfolding bucket_of
  bucket_of-Keeps m j h = rw (h.strip, h.count) refl

-- After any calls on a new map, `find` of a key for which the strip function of the constructor names one
-- of its `capa` buckets gives what a plain map gives after the same calls, and of any other key it throws.
pub calls-find {ℓ κ} :
    {K : Type ℓ} {V : Type κ} (same : K → K → Bool) (law : SameKey same) (fn : K → ℤ) (capa : ℕ)
    (cs : List (Call K V)) (j : K)
    → find same (calls same (construct fn capa) cs) j
      ≡ answer (bucket_in (fn j) capa) (plain_calls same (λ k. none) cs j)
calls-find same law fn capa cs j =
    let m = calls same (construct fn capa) cs in
    let shows = calls-Shows_new same law fn capa cs in
    shows.finds j
    ∙ ap (λ i. answer i (plain_calls same (λ k. none) cs j))
        (bucket_of-Keeps same fn capa m j
          (calls-Keeps same fn capa (construct fn capa) cs (construct-Keeps same fn capa)))
