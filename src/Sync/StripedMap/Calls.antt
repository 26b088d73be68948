-- ===== src/Sync/StripedMap/Calls.antt =====
-- hj/sync/striped_map.hpp: the striped map against a plain map, along every sequence of calls.
use high_jump.Common.{
  ℕ, zero, suc, ◌≡◌, refl, sym, ◌∙◌, Bool, true, false, Bool-cases, inl, inr, Option, none, some,
  List, [], ◌∷◌, map, get_or, get_or-replicate, arith, if◌then◌else◌,
}
use high_jump.Sync.StripedMap.{
  ℤ, StripedMap, construct, lookup, emplace_in, assign_in, erase_in, bucket_of, change_bucket,
  emplace, replace, find, erase, clear,
}
use high_jump.Sync.StripedMap.Buckets.{
  SameKey, lookup-assign_in, lookup-erase_in, lookup-emplace_in, Unique-assign_in, Unique-erase_in,
  Unique-emplace_in,
}
use high_jump.Sync.StripedMap.Finds.{answer, Shows, find-some, find-none, change-Shows}

-- The calls that change the map.
pub data Call {ℓ κ} (K : Type ℓ) (V : Type κ) : Type (ℓ ⊔ κ) where
  put_new : K → V → Call K V
  put : K → V → Call K V
  drop : K → Call K V
  drop_all : Call K V

module _ {ℓ κ} {K : Type ℓ} {V : Type κ} (same : K → K → Bool) where
  unfoldable pub or_else : StripedMap K V → Option (StripedMap K V) → StripedMap K V
  or_else m none = m
  or_else m (some n) = n

  unfoldable pub or_else_second : StripedMap K V → Option (Bool × StripedMap K V) → StripedMap K V
  or_else_second m none = m
  or_else_second m (some r) = r.1

  -- A call; the exception leaves the map as it is.
  unfoldable pub call : StripedMap K V → Call K V → StripedMap K V
  unfolding or_else or_else_second
  call m (put_new k v) = or_else m (emplace same m k v)
  call m (put k v) = or_else m (replace same m k v)
  call m (drop k) = or_else_second m (erase same m k)
  call m drop_all = clear m

  unfoldable pub calls : StripedMap K V → List (Call K V) → StripedMap K V
  unfolding call
  calls m [] = m
  calls m (c ∷ cs) = calls (call m c) cs

  -- The same calls on a plain map.
  unfoldable pub plain_call : (K → Option V) → Call K V → K → Option V
  plain_call f (put_new k v) j =
      if same j k then some (elim (f k) as (λ o. V) [ none ↦ v | some w ↦ w ]) else f j
  plain_call f (put k v) j = if same j k then some v else f j
  plain_call f (drop k) j = if same j k then none else f j
  plain_call f drop_all j = none

  unfoldable pub plain_calls : (K → Option V) → List (Call K V) → K → Option V
  plain_calls f [] = f
  plain_calls f (c ∷ cs) = plain_calls (plain_call f c) cs

module _ {ℓ κ} {K : Type ℓ} {V : Type κ} (same : K → K → Bool) (law : SameKey same) where
  ignored-Shows :
      (m : StripedMap K V) (f : K → Option V) (k : K) (o : Option V)
      → Shows same law m f
      → bucket_of same m k ≡ none
      → Shows same law m (λ j. if same j k then o else f j)
  ignored-Shows m f k o shows e = record {
    unique = shows.unique;
    finds = λ j. elim (Bool-cases (same j k)) [
      | inl h ↦
          let n : bucket_of same m j ≡ none = rw (law.only j k h) e in
          rw (find-none same law m j n, n) refl
      | inr h ↦ rw h (shows.finds j)
    ];
  }

  replace-run :
      (m : StripedMap K V) (k : K) (v : V) {i : ℕ}
      → bucket_of same m k ≡ some i
      → replace same m k v
        ≡ some (change_bucket same m i (assign_in same k v (get_or m.buckets i [])))
  unfolding replace
  replace-run m k v e = rw (e, replace) refl

  replace-out :
      (m : StripedMap K V) (k : K) (v : V) → bucket_of same m k ≡ none → replace same m k v ≡ none
  unfolding replace
  replace-out m k v e = rw (e, replace) refl

  emplace-run :
      (m : StripedMap K V) (k : K) (v : V) {i : ℕ}
      → bucket_of same m k ≡ some i
      → emplace same m k v
        ≡ some (change_bucket same m i (emplace_in same k v (get_or m.buckets i [])))
  unfolding emplace
  emplace-run m k v e = rw (e, emplace) refl

  emplace-out :
      (m : StripedMap K V) (k : K) (v : V) → bucket_of same m k ≡ none → emplace same m k v ≡ none
  unfolding emplace
  emplace-out m k v e = rw (e, emplace) refl

  erase-run :
      (m : StripedMap K V) (k : K) {i : ℕ}
      → bucket_of same m k ≡ some i
      → erase same m k
        ≡ some (
          elim (lookup same k (get_or m.buckets i [])) as (λ o. Bool) [
            | none ↦ false
            | some v ↦ true
          ],
          change_bucket same m i (erase_in same k (get_or m.buckets i [])),
        )
  unfolding erase
  erase-run m k e = rw (e, erase) refl

  erase-out : (m : StripedMap K V) (k : K) → bucket_of same m k ≡ none → erase same m k ≡ none
  unfolding erase
  erase-out m k e = rw (e, erase) refl

  clear-buckets :
      (bs : List (List (K × V))) (i : ℕ) → get_or {A = List (K × V)} (map (λ b. []) bs) i [] ≡ []
  clear-buckets [] i = refl
  clear-buckets (b ∷ bs) zero = refl
  clear-buckets (b ∷ bs) (suc i) = clear-buckets bs i

  nothing-Shows :
      (m : StripedMap K V)
      → ((i : ℕ) → get_or {A = List (K × V)} m.buckets i [] ≡ [])
      → Shows same law m (λ j. none)
  unfolding lookup
  nothing-Shows m bare = record {
    unique = λ i. rw (bare i) tt;
    finds = λ j. by_bucket j (bucket_of same m j) refl;
  }
    where
      by_bucket :
          (j : K) (n : Option ℕ)
          → bucket_of same m j ≡ n
          → find same m j ≡ answer (bucket_of same m j) none
      by_bucket j none e = rw (find-none same law m j e, e) refl
      by_bucket j (some i) e = rw (find-some same law m j e, e, bare i) refl

  clear-Shows : (m : StripedMap K V) → Shows same law (clear m) (λ j. none)
  unfolding clear
  clear-Shows m = nothing-Shows (clear m) (clear-buckets m.buckets)

  pub call-Shows :
      (m : StripedMap K V) (f : K → Option V) (c : Call K V)
      → Shows same law m f
      → Shows same law (call same m c) (plain_call same f c)
  unfolding call or_else or_else_second plain_call
  call-Shows m f (put k v) shows = by_bucket (bucket_of same m k) refl
    where
      by_bucket :
          (n : Option ℕ)
          → bucket_of same m k ≡ n
          → Shows same law (call same m (put k v)) (plain_call same f (put k v))
      by_bucket none e = rw (replace-out m k v e) (ignored-Shows m f k (some v) shows e)
      by_bucket (some i) e = rw (replace-run m k v e) (
          change-Shows same law m f shows k i e (assign_in same k v (get_or m.buckets i []))
            (some v) (Unique-assign_in same law k v (get_or m.buckets i []) (shows.unique i))
            (λ j. lookup-assign_in same law j k v (get_or m.buckets i [])))
  call-Shows m f (put_new k v) shows = by_bucket (bucket_of same m k) refl
    where
      by_bucket :
          (n : Option ℕ)
          → bucket_of same m k ≡ n
          → Shows same law (call same m (put_new k v)) (plain_call same f (put_new k v))
      by_bucket none e =
          rw (emplace-out m k v e)
            (ignored-Shows m f k (some (elim (f k) as (λ o. V) [ none ↦ v | some w ↦ w ])) shows e)
      by_bucket (some i) e =
          let found : some (lookup same k (get_or m.buckets i [])) ≡ some (f k) =
            sym (find-some same law m k e) ∙ shows.finds k ∙ (rw e refl) in
          let old : lookup same k (get_or m.buckets i []) ≡ f k = ground arith in
          rw (emplace-run m k v e) (
            change-Shows same law m f shows k i e (emplace_in same k v (get_or m.buckets i []))
              (some (elim (f k) as (λ o. V) [ none ↦ v | some w ↦ w ]))
              (Unique-emplace_in same law k v (get_or m.buckets i []) (shows.unique i))
              (λ j. rw (← old) (lookup-emplace_in same law j k v (get_or m.buckets i []))))
  call-Shows m f (drop k) shows = by_bucket (bucket_of same m k) refl
    where
      by_bucket :
          (n : Option ℕ)
          → bucket_of same m k ≡ n
          → Shows same law (call same m (drop k)) (plain_call same f (drop k))
      by_bucket none e = rw (erase-out m k e) (ignored-Shows m f k none shows e)
      by_bucket (some i) e = rw (erase-run m k e) (
          change-Shows same law m f shows k i e (erase_in same k (get_or m.buckets i [])) none
            (Unique-erase_in same law k (get_or m.buckets i []) (shows.unique i))
            (λ j. lookup-erase_in same law j k (get_or m.buckets i []) (shows.unique i)))
  call-Shows m f drop_all shows = clear-Shows m

  construct-Shows : (fn : K → ℤ) (capa : ℕ) → Shows {V = V} same law (construct fn capa) (λ j. none)
  unfolding construct
  construct-Shows fn capa = nothing-Shows (construct fn capa) (λ i. get_or-replicate capa i [])

  calls-Shows :
      (m : StripedMap K V) (f : K → Option V) (cs : List (Call K V))
      → Shows same law m f
      → Shows same law (calls same m cs) (plain_calls same f cs)
  unfolding calls plain_calls
  calls-Shows m f [] shows = shows
  calls-Shows m f (c ∷ cs) shows =
      calls-Shows (call same m c) (plain_call same f c) cs (call-Shows m f c shows)

  -- A map that is new, seen through its own buckets.
  pub calls-Shows_new :
      (fn : K → ℤ) (capa : ℕ) (cs : List (Call K V))
      → Shows same law (calls same (construct fn capa) cs) (plain_calls same (λ j. none) cs)
  calls-Shows_new fn capa cs =
      calls-Shows (construct fn capa) (λ j. none) cs (construct-Shows fn capa)
