-- ===== src/Algo/Uuid.antt =====
-- hj/algo/uuid.hpp: the snowflake engine. The clock is a list of what `_current_time_ms` gives, one
-- entry for each call of it, in milliseconds; it may go backwards. `next_id` gives up the lock while
-- it sleeps, so it has two parts here, with other calls in between; `reset_worker_id` is not among these.
pub mod Order
pub mod Ascending
mod Tests
use Prim.Native.Nat.{bit_and, bit_or}
use high_jump.Common.{
  ℕ, zero, suc, ◌+◌, ◌-◌, ◌*◌, ◌%◌, ◌^◌, Bool, true, false, Option, none, some, List, [], ◌∷◌, ltb,
  leb, ◌==◌, if◌then◌else◌,
}

pub record SnowflakeEngine : Type 0 where
  pub worker_id : ℕ
  pub seq : ℕ
  pub last_timestamp : ℕ

abbrev pub max_worker_id : ℕ
max_worker_id = 2 ^ 10 - 1

abbrev pub seqmask : ℕ
seqmask = 2 ^ 12 - 1

-- 2025-01-01 00:00:00 UTC.
abbrev pub epoch : ℕ
epoch = 1735689600000

abbrev pub max_backward_ms : ℕ
max_backward_ms = 5000

-- The constructor; `none` is the exception.
pub make_engine : ℕ → Option SnowflakeEngine
make_engine worker_id =
    if ltb max_worker_id worker_id
    then none
    else some (record { worker_id = worker_id; seq = 0; last_timestamp = 0 })

pub reset_worker_id : SnowflakeEngine → ℕ → Option SnowflakeEngine
reset_worker_id e worker_id =
    if ltb max_worker_id worker_id then none else some (record e { worker_id = worker_id })

-- The loop: the first reading past `last_time`; `none` while the clock gives none.
pub wait_next_millis : ℕ → List ℕ → Option ℕ
wait_next_millis last_time [] = none
wait_next_millis last_time (t ∷ clock) =
    let more = wait_next_millis last_time clock in if leb t last_time then more else some t

pub make_id : SnowflakeEngine → ℕ
make_id e =
    bit_or
      (bit_or (((e.last_timestamp + 2 ^ 64 - epoch) % 2 ^ 64) * 2 ^ 22 % 2 ^ 64)
        (e.worker_id * 2 ^ 12 % 2 ^ 64))
      e.seq

-- How a part of `next_id` ends: with an identifier, an exception, asleep without the lock, or still in
-- `_wait_next_millis`.
pub data Outcome : Type 0 where
  issued : ℕ → SnowflakeEngine → Outcome
  refused sleeping waiting : Outcome

pub stamp : SnowflakeEngine → ℕ → ℕ → Outcome
stamp e seq t = let e' = record e { seq = seq; last_timestamp = t } in issued (make_id e') e'

pub stamp_next : SnowflakeEngine → Option ℕ → Outcome
stamp_next e none = waiting
stamp_next e (some t) = stamp e 0 t

-- From the comparison with `_last_timestamp` on, at the timestamp `t`.
pub finish_id : SnowflakeEngine → ℕ → List ℕ → Outcome
finish_id e t clock =
    let seq = bit_and (e.seq + 1) seqmask in
    if t == e.last_timestamp
    then (if seq == 0
        then stamp_next e (wait_next_millis e.last_timestamp clock)
        else stamp e seq t)
    else stamp e 0 t

-- The first part of `next_id`.
pub next_id : SnowflakeEngine → List ℕ → Outcome
next_id e [] = waiting
next_id e (t ∷ clock) =
    if ltb t e.last_timestamp
    then (if ltb max_backward_ms (e.last_timestamp - t) then refused else sleeping)
    else finish_id e t clock

pub finish_late : SnowflakeEngine → Option ℕ → Outcome
finish_late e none = waiting
finish_late e (some t) = finish_id e t []

-- The second part, when it has the lock again.
pub wake_up : SnowflakeEngine → List ℕ → Outcome
wake_up e [] = waiting
wake_up e (t ∷ clock) =
    if ltb t e.last_timestamp
    then finish_late e (wait_next_millis e.last_timestamp clock)
    else finish_id e t clock
