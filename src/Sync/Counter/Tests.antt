-- ===== src/Sync/Counter/Tests.antt =====
-- hj/sync/counter.hpp: runs of two threads on small counters.
use high_jump.Common.{ℕ, ◌≡◌, refl, Bool, false, List, [], ◌∷◌, map, replicate, arith}
use high_jump.Sync.Counter.{
  Counter, of_value, assign_value, assign_counter, with_step, reset, inc, loaded, over, advance,
  apply, out_of_bounds, threads_step, threads_run,
}
use high_jump.Sync.Counter.Bounded.{Within, start, threads_run-Within}
use high_jump.Sync.Counter.Total.{threads_run-inc, default_wraps}

-- From 0 to 2, in steps of 1.
abbrev small : Counter
small = record { value = 1; step = 1; min = 0; max = 2 }

-- Both threads read, then both exchange, and the second has to read again.
abbrev order : List (ℕ × Bool)
order = (0, false) ∷ (1, false) ∷ (0, false) ∷ (1, false) ∷ (1, false) ∷ (1, false) ∷ []

threads_run-Within_example :
    Within small (threads_run 32 small (map start (inc small ∷ reset 7 ∷ [])) order).0
threads_run-Within_example =
    threads_run-Within 32 small (inc small ∷ reset 7 ∷ []) order (omega arith) (omega arith)

abbrev low : Counter
low = record { value = 0; step = 1; min = 0; max = 2 }

threads_run-inc_example : (threads_run 32 low (map start (replicate 2 (inc low))) order).0.value ≡ 2
unfolding threads_run threads_step advance apply out_of_bounds inc
threads_run-inc_example =
    threads_run-inc 32 2 low order (omega arith) (omega arith) (omega arith) (refl, (refl, tt))

default_wraps_example :
    advance 32
      (with_step 32 0xffff_ffff 0 1)
      (inc (with_step 32 0xffff_ffff 0 1))
      (loaded 0xffff_ffff)
      false
    ≡ (with_step 32 0 0 1, over)
default_wraps_example =
    default_wraps 32 0xffff_ffff 1 (omega arith) (omega arith) (omega arith) (omega arith)

-- Assignment leaves the bounds behind.
assigned : assign_value 32 small 7 ≡ of_value 32 7
unfolding assign_value of_value
assigned = refl

copied : assign_counter small low ≡ low
unfolding assign_counter
copied = refl
