-- ===== src/Sync/StripedMap/Tests.antt =====
-- hj/sync/striped_map.hpp: a map of numbers in three buckets, the last of them out of reach of the keys.
use high_jump.Common.{ℕ, ◌≡◌, none, List, [], ◌∷◌, ◌==◌, arith}
use high_jump.Sync.StripedMap.{ℤ, construct, by_hash, bucket_in, find}
use high_jump.Sync.StripedMap.Buckets.{SameKey}
use high_jump.Sync.StripedMap.Finds.{answer}
use high_jump.Sync.StripedMap.Calls.{Call, put_new, put, drop, drop_all, calls, plain_calls}
use high_jump.Sync.StripedMap.Plain.{calls-find}

same_number : SameKey {K = ℕ} ◌==◌
same_number = record { itself = λ a. ground arith; only = λ a b h. ground arith }

abbrev some_calls : List (Call ℕ ℕ)
some_calls = put 4 1 ∷ put_new 4 2 ∷ put 7 5 ∷ drop 4 ∷ drop_all ∷ put 7 6 ∷ put 1 9 ∷ []

abbrev fn : ℕ → ℤ
fn = by_hash (λ k. k) 3

calls-find_example :
    find ◌==◌ (calls ◌==◌ (construct fn 3) some_calls) 7
    ≡ answer (bucket_in (fn 7) 3) (plain_calls ◌==◌ (λ j. none) some_calls 7)
calls-find_example = calls-find ◌==◌ same_number fn 3 some_calls 7
