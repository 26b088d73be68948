-- ===== src/Algo/Uuid/Ascending.antt =====
-- hj/algo/uuid.hpp: the identifiers of any number of calls, and their parts.
use high_jump.Common.{
  ℕ, ◌+◌, ◌/◌, ◌%◌, ◌^◌, ◌<◌, ◌≡◌, Bool, true, false, Option, none, some, List, [], ◌∷◌, ltb,
  Bool-cases, inl, inr, All, arith,
}
use high_jump.Algo.Uuid.{
  SnowflakeEngine, reset_worker_id, max_worker_id, epoch, make_engine, make_id, Outcome, issued,
  refused, sleeping, waiting, next_id, wake_up,
}
use high_jump.Algo.Uuid.Order.{
  InRange, IsValid, parts, make_id-parts, key, Issued, Good, next_id-Good, wake_up-Good,
}

-- One part of a call: whether it is the first, and the clock that it reads.
abbrev run_part : SnowflakeEngine → Bool × List ℕ → Outcome
run_part e (true, clock) = next_id e clock
run_part e (false, clock) = wake_up e clock

run_part-Good :
    (e : SnowflakeEngine) (p : Bool × List ℕ) → IsValid e → All InRange p.1 → Good e (run_part e p)
run_part-Good e (true, clock) v rs = next_id-Good e clock v rs
run_part-Good e (false, clock) v rs = wake_up-Good e clock v rs

-- What follows a part. One that waits for the clock keeps the lock, so nothing follows it.
abbrev collect : Outcome → (SnowflakeEngine → List ℕ) → List ℕ → List ℕ
collect (issued id e') next same = id ∷ next e'
collect refused next same = same
collect sleeping next same = same
collect waiting next same = []

-- The identifiers that the parts of calls issue, one part after another.
unfoldable pub issue_all : SnowflakeEngine → List (Bool × List ℕ) → List ℕ
issue_all e [] = []
issue_all e (p ∷ ps) = collect (run_part e p) (λ e'. issue_all e' ps) (issue_all e ps)

abbrev pub Increasing : ℕ → List ℕ → Type 0
Increasing low [] = Unit
Increasing low (id ∷ ids) = (low < id) × Increasing id ids

abbrev pub Ascending : List ℕ → Type 0
Ascending [] = Unit
Ascending (id ∷ ids) = Increasing id ids

parts-later :
    (e e' : SnowflakeEngine)
    → IsValid e
    → IsValid e'
    → InRange e.last_timestamp
    → e'.worker_id ≡ e.worker_id
    → key e < key e'
    → parts e < parts e'
parts-later e e' v v' r w later = omega (arith, v.small, v'.small, r.0, w)

Issued-later :
    (e e' : SnowflakeEngine) (id : ℕ)
    → IsValid e
    → InRange e.last_timestamp
    → Issued e id e'
    → make_id e < id
Issued-later e e' id v r i = omega (
  arith,
  i.made,
  make_id-parts e v r,
  make_id-parts e' i.valid i.in_range,
  parts-later e e' v i.valid r i.same_worker i.later,
)

collect-Increasing :
    (e : SnowflakeEngine) (o : Outcome) (next : SnowflakeEngine → List ℕ) (same : List ℕ)
    → IsValid e
    → InRange e.last_timestamp
    → Good e o
    → ((e' : SnowflakeEngine)
        → IsValid e'
        → InRange e'.last_timestamp
        → Increasing (make_id e') (next e'))
    → Increasing (make_id e) same
    → Increasing (make_id e) (collect o next same)
collect-Increasing e (issued id e') next same v r g n s =
    (Issued-later e e' id v r g, rw g.made (n e' g.valid g.in_range))
collect-Increasing e refused next same v r g n s = s
collect-Increasing e sleeping next same v r g n s = s
collect-Increasing e waiting next same v r g n s = tt

issue_all-Increasing :
    (e : SnowflakeEngine) (ps : List (Bool × List ℕ))
    → IsValid e
    → InRange e.last_timestamp
    → All (λ p. All InRange p.1) ps
    → Increasing (make_id e) (issue_all e ps)
unfolding issue_all
issue_all-Increasing e [] v r rs = tt
issue_all-Increasing e (p ∷ ps) v r (now, rs) =
    collect-Increasing e (run_part e p) (λ e'. issue_all e' ps) (issue_all e ps) v r
      (run_part-Good e p v now) (λ e' v' r'. issue_all-Increasing e' ps v' r' rs)
      (issue_all-Increasing e ps v r rs)

collect-Ascending :
    (e : SnowflakeEngine) (o : Outcome) (next : SnowflakeEngine → List ℕ) (same : List ℕ)
    → Good e o
    → ((e' : SnowflakeEngine)
        → IsValid e'
        → InRange e'.last_timestamp
        → Increasing (make_id e') (next e'))
    → Ascending same
    → Ascending (collect o next same)
collect-Ascending e (issued id e') next same g n s = rw g.made (n e' g.valid g.in_range)
collect-Ascending e refused next same g n s = s
collect-Ascending e sleeping next same g n s = s
collect-Ascending e waiting next same g n s = tt

-- The identifiers that an engine issues are strictly ascending, so no two are the same: for any number
-- of calls, their parts in any order, and a clock that may go backwards, as long as it shows times from
-- the epoch to 2 ^ 42 milliseconds after it. The worker id stays the same all the time.
pub issue_all-Ascending :
    (e : SnowflakeEngine) (ps : List (Bool × List ℕ))
    → IsValid e
    → All (λ p. All InRange p.1) ps
    → Ascending (issue_all e ps)
unfolding issue_all
issue_all-Ascending e [] v rs = tt
issue_all-Ascending e (p ∷ ps) v (now, rs) =
    collect-Ascending e (run_part e p) (λ e'. issue_all e' ps) (issue_all e ps)
      (run_part-Good e p v now) (λ e' v' r'. issue_all-Increasing e' ps v' r' rs)
      (issue_all-Ascending e ps v rs)

abbrev Made : Option SnowflakeEngine → Type 0
Made none = Unit
Made (some e) = IsValid e

-- An engine that the constructor makes is valid.
make_engine-Made : (worker_id : ℕ) → Made (make_engine worker_id)
unfolding make_engine
make_engine-Made worker_id = elim (Bool-cases (ltb max_worker_id worker_id)) [
  | inl large ↦ rw large tt
  | inr fits ↦ rw fits (record { worker = ground arith; small = omega arith })
]

-- So is one with a new worker.
reset_worker_id-Made :
    (e : SnowflakeEngine) (worker_id : ℕ) → IsValid e → Made (reset_worker_id e worker_id)
unfolding reset_worker_id
reset_worker_id-Made e worker_id v = elim (Bool-cases (ltb max_worker_id worker_id)) [
  | inl large ↦ rw large tt
  | inr fits ↦ rw fits (record { worker = ground arith; small = v.small })
]

-- From an identifier its parts are read back: the time, the worker and the number. So engines with
-- different workers never issue the same.
pub make_id-fields :
    (e : SnowflakeEngine)
    → IsValid e
    → InRange e.last_timestamp
    → (make_id e / 2 ^ 22 + epoch ≡ e.last_timestamp)
      × (make_id e / 2 ^ 12 % 2 ^ 10 ≡ e.worker_id)
      × (make_id e % 2 ^ 12 ≡ e.seq)
make_id-fields e v r = (
  omega (arith, make_id-parts e v r, v.worker, v.small, r.0),
  omega (arith, make_id-parts e v r, v.worker, v.small, r.0),
  omega (arith, make_id-parts e v r, v.worker, v.small, r.0),
)
