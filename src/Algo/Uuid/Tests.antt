-- ===== src/Algo/Uuid/Tests.antt =====
-- hj/algo/uuid.hpp: runs, and the theorems at them.
use high_jump.Common.{ℕ, ◌+◌, ◌≡◌, refl, Bool, true, false, List, [], ◌∷◌, arith}
use high_jump.Algo.Uuid.{
  SnowflakeEngine, epoch, make_id, next_id, wake_up, finish_id, finish_late, stamp, stamp_next,
  wait_next_millis,
}
use high_jump.Algo.Uuid.Order.{IsValid}
use high_jump.Algo.Uuid.Ascending.{issue_all, Ascending, issue_all-Ascending}

abbrev engine : SnowflakeEngine
engine = record { worker_id = 3; seq = 0; last_timestamp = 0 }

engine-IsValid : IsValid engine
engine-IsValid = record { worker = omega arith; small = omega arith }

-- Two calls in one millisecond; then the clock goes back, a call sleeps, and wakes up too early.
abbrev four_parts : List (Bool × List ℕ)
four_parts =
    (true, (epoch + 9) ∷ [])
    ∷ (true, (epoch + 9) ∷ [])
    ∷ (true, (epoch + 8) ∷ [])
    ∷ (false, (epoch + 8) ∷ (epoch + 9) ∷ (epoch + 10) ∷ [])
    ∷ []

run_four : issue_all engine four_parts ≡ 37761024 ∷ 37761025 ∷ 41955328 ∷ []
unfolding issue_all next_id wake_up finish_id finish_late stamp stamp_next wait_next_millis make_id
run_four = refl

issue_all-Ascending_example : Ascending (issue_all engine four_parts)
issue_all-Ascending_example = issue_all-Ascending engine four_parts engine-IsValid (omega arith)

abbrev used : SnowflakeEngine
used = record { worker_id = 3; seq = 5; last_timestamp = epoch + 9 }
