-- ===== src/Io/DBuffer/Tests.antt =====
-- hj/io/dbuffer.hpp: numbers in a new double buffer with the default copy.
use high_jump.Common.{ℕ, ◌≡◌, refl, Bool, true, not, [], ◌∷◌}
use high_jump.Io.DBuffer.{DBuffer, construct, content, default_copy, writes}
use high_jump.Io.DBuffer.Writes.{last_accepted, writes-last_accepted, second_write_hits_reader}

abbrev any : ℕ → Bool
any v = true

abbrev fresh : DBuffer ℕ
fresh = construct 0

abbrev two_writes : DBuffer ℕ
two_writes = writes default_copy fresh (3 ∷ (4 ∷ []))

writes-last_accepted_example :
    (content (two_writes) (two_writes).front ≡ 4) × ((two_writes).back ≡ not (two_writes).front)
unfolding default_copy construct content last_accepted
writes-last_accepted_example =
    writes-last_accepted default_copy any (λ v o. refl) (λ v o h. refl) fresh (3 ∷ 4 ∷ []) refl

second_write_hits_reader_example : content (two_writes) true ≡ 4
unfolding default_copy construct
second_write_hits_reader_example =
    second_write_hits_reader default_copy any (λ v o. refl) (λ v o h. refl) fresh 3 4 refl refl
