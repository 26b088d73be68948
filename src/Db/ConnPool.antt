-- ===== src/Db/ConnPool.antt =====
-- hj/db/db_conn_pool.hpp: a pool of connections that many threads share. A handler is split where
-- it gives up the lock; `Phase` is where a thread stands between two such parts.
-- The notifications of the condition variable are left out: a part may run whenever its test holds.
pub mod Balance
pub mod System
pub mod Exclusive
mod Tests
use high_jump.Common.{
  ℕ, zero, suc, ◌+◌, ◌-◌, ◌^◌, ◌%◌, Bool, true, false, ◌&&◌, ◌||◌, Option, none, some, List, [],
  ◌∷◌, ◌++◌, ltb, leb, if◌then◌else◌, length,
}

-- `_capa` and `_min_size` are fixed; a connection is its address.
pub record Pool : Type 0 where
  pub capa : ℕ
  pub min_size : ℕ
  pub has_check : Bool
  pub idle : List ℕ
  pub closed : Bool
  pub total : ℕ

-- `size_t` arithmetic of `_total_cnt`.
pub increment : ℕ → ℕ
increment n = (n + 1) % 2 ^ 64

pub decrease : ℕ → ℕ → ℕ
decrease n k = (n + 2 ^ 64 - k) % 2 ^ 64

pub is_empty_pool : Pool → Bool
is_empty_pool p = elim p.idle [ [] ↦ true | c ∷ cs ↦ false ]

pub active : Pool → ℕ
active p = decrease p.total (length p.idle)

pub construct : ℕ → ℕ → Bool → Pool
construct capa min_size has_check = record {
  capa = capa;
  min_size = if ltb capa min_size then capa else min_size;
  has_check = has_check;
  idle = [];
  closed = false;
  total = 0;
}

-- The loop of `_init`; the list has what each call of `_make` gives, `none` for a null pointer or
-- an exception.
pub init_loop : Pool → List (Option ℕ) → Pool
init_loop p [] = p
init_loop p (none ∷ made) = init_loop p made
init_loop p (some c ∷ made) =
    init_loop (record p { idle = p.idle ++ (c ∷ []); total = increment p.total }) made

-- `remaining_ms` below 0, above 0, and 0.
pub data Mode : Type 0 where
  forever bounded instant : Mode

pub data Phase : Type 0 where
  -- `acquire` at the top of its loop
  waiting : Mode → Phase
  -- a slot is reserved, `_make` runs
  making : Mode → Phase
  -- a connection is in hand, `_check` runs
  checking : Mode → ℕ → Phase
  -- there is none, or it is not valid
  failed : Mode → Phase
  -- it is valid, the last look at `_closed` is to come
  confirmed : ℕ → Phase
  -- the caller has the handle
  holding : ℕ → Phase
  -- its deleter runs `_release`
  releasing : ℕ → Phase
  -- `close` before and after it sets `_closed`
  closing closing_locked : Phase
  -- the call is over, with no handle
  finished : Phase

-- What the environment decides.
pub data Event : Type 0 where
  proceed timed_out : Event
  made : Option ℕ → Event
  checked : Bool → Event

pub wait_cond : Pool → Bool
unfolding is_empty_pool
wait_cond p = (if is_empty_pool p then false else true) || p.closed || ltb p.total p.capa

-- The rest of the locked part of `acquire`, after the wait.
pub take_slot : Pool → Mode → List ℕ → Phase × Pool
take_slot p m idle = if p.closed then (finished, p) else elim idle [
  | c ∷ rest ↦ (checking m c, record p { idle = rest })
  | [] ↦
      if ltb p.total p.capa
      then (making m, record p { total = increment p.total })
      else (finished, p)
]

-- The locked part of `acquire`; `none` while it waits.
pub enter : Pool → Mode → Event → Option (Phase × Pool)
unfolding take_slot is_empty_pool
enter p forever proceed = if wait_cond p then some (take_slot p forever p.idle) else none
enter p bounded proceed = if wait_cond p then some (take_slot p bounded p.idle) else none
enter p bounded timed_out =
    if wait_cond p then some (take_slot p bounded p.idle) else some (finished, p)
enter p instant proceed =
    if is_empty_pool p && leb p.capa p.total
    then some (finished, p)
    else some (take_slot p instant p.idle)
enter p m e = none

-- The slot is given up; `acquire` ends when its time is over, and tries again otherwise.
pub give_up : Pool → Mode → Event → Option (Phase × Pool)
give_up p forever proceed = some (waiting forever, record p { total = decrease p.total 1 })
give_up p bounded proceed = some (waiting bounded, record p { total = decrease p.total 1 })
give_up p bounded timed_out = some (finished, record p { total = decrease p.total 1 })
give_up p instant timed_out = some (finished, record p { total = decrease p.total 1 })
give_up p m e = none

pub is_valid_conn : Pool → Bool → Bool
is_valid_conn p answer = if p.has_check then answer else true

pub decrease_guarded : ℕ → ℕ
decrease_guarded n = if ltb 0 n then decrease n 1 else n

pub confirm : Pool → ℕ → Phase × Pool
confirm p c =
    if p.closed then (finished, record p { total = decrease_guarded p.total }) else (holding c, p)

pub release : Pool → ℕ → Pool
release p c =
    if p.closed
    then record p { total = decrease_guarded p.total }
    else (if ltb (length p.idle) p.min_size
        then record p { idle = p.idle ++ (c ∷ []) }
        else record p { total = decrease p.total 1 })

pub close_begin : Pool → Phase × Pool
close_begin p = if p.closed then (finished, p) else (closing_locked, record p { closed = true })

pub close_finish : Pool → Pool
close_finish p = record p { idle = []; total = decrease p.total (length p.idle) }

-- One atomic part of the call that stands at a phase; `none`: this event does not fit there.
pub step : Pool → Phase → Event → Option (Phase × Pool)
unfolding enter give_up is_valid_conn confirm release close_begin close_finish
step p (waiting m) e = enter p m e
step p (making m) (made none) = some (failed m, p)
step p (making m) (made (some c)) = some (checking m c, p)
step p (checking m c) (checked answer) =
    some (if is_valid_conn p answer then confirmed c else failed m, p)
step p (failed m) e = give_up p m e
step p (confirmed c) proceed = some (confirm p c)
step p (holding c) proceed = some (releasing c, p)
step p (releasing c) proceed = some (finished, release p c)
step p closing proceed = some (close_begin p)
step p closing_locked proceed = some (finished, close_finish p)
step p f e = none
