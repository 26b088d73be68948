-- ===== src/Sync/Counter.antt =====
-- hj/sync/counter.hpp: a number between two bounds that threads change by compare and exchange, for
-- an unsigned type of `w` bits. `w` is at least 32: C++ computes with narrower types in `int`, where
-- sums do not wrap around. Assignment writes the bounds and the step width, which are not atomic, so
-- no other call may run meanwhile: it is an operation of its own here and not a `Call` of a thread.
-- An argument that is a counter stands for its value, which no thread changes during the call.
pub mod Bounded
pub mod Total
mod Tests
use high_jump.Common.{
  ℕ, zero, suc, ◌+◌, ◌-◌, ◌*◌, ◌/◌, ◌%◌, ◌^◌, Bool, true, false, not, ◌&&◌, ◌||◌, Option, none,
  some, List, [], ◌∷◌, ltb, ◌==◌, if◌then◌else◌, get_elem?, set,
}

pub record Counter : Type 0 where
  pub value : ℕ
  pub step : ℕ
  pub min : ℕ
  pub max : ℕ

-- The constructors with one to four arguments.
pub of_value : ℕ → ℕ → Counter
of_value w value = record { value = value; step = 1; min = 0; max = 2 ^ w - 1 }

pub with_min : ℕ → ℕ → ℕ → Counter
with_min w value min = record { value = value; step = 1; min = min; max = 2 ^ w - 1 }

pub with_step : ℕ → ℕ → ℕ → ℕ → Counter
with_step w value min step = record { value = value; step = step; min = min; max = 2 ^ w - 1 }

pub with_bounds : ℕ → ℕ → ℕ → ℕ → Counter
with_bounds value min max step = record { value = value; step = step; min = min; max = max }

-- `operator=` of a value: it is not held against the bounds, which go back to those of the type.
pub assign_value : ℕ → Counter → ℕ → Counter
assign_value w c value = record c { value = value; step = 1; min = 0; max = 2 ^ w - 1 }

-- `operator=` of another counter.
pub assign_counter : Counter → Counter → Counter
assign_counter c other = record c {
  value = other.value;
  step = other.step;
  min = other.min;
  max = other.max;
}

-- `+`, `-`, `*` and `/`. A division by 0 has no meaning in the source.
pub data Operator : Type 0 where
  add : Operator
  subtract : Operator
  multiply : Operator
  divide : Operator

pub apply : ℕ → Operator → ℕ → ℕ → ℕ
apply w add a b = (a + b) % 2 ^ w
apply w subtract a b = (a + 2 ^ w - b) % 2 ^ w
apply w multiply a b = (a * b) % 2 ^ w
apply w divide a b = a / b

-- The test before each change.
pub out_of_bounds : Counter → ℕ → Bool
out_of_bounds c v = ltb c.max v || ltb v c.min

-- The operators that make a new counter.
pub combine : ℕ → Operator → Counter → ℕ → Counter
unfolding apply out_of_bounds
combine w op c arg =
    let v = apply w op c.value arg in if out_of_bounds c v then c else record c { value = v }

-- The calls by which threads change a counter that they share, with `++`, `inc`, `--` and `dec` as changes by the step.
pub data Call : Type 0 where
  change : Operator → ℕ → Call
  reset : ℕ → Call

pub inc : Counter → Call
inc c = change add c.step

pub dec : Counter → Call
dec c = change subtract c.step

-- Where a call stands: at its start, before it reads the value again, with the value that it has read,
-- and at its end.
pub data Phase : Type 0 where
  ready : Phase
  checked : Phase
  loaded : ℕ → Phase
  over : Phase

-- The next step of a call. A change tests its result after each reading, and `reset` its value once;
-- `spurious` is whether `compare_exchange_weak` fails for no reason.
pub advance : ℕ → Counter → Call → Phase → Bool → Counter × Phase
unfolding out_of_bounds apply
advance w c (change op arg) ready spurious = (c, loaded c.value)
advance w c (change op arg) checked spurious = (c, loaded c.value)
advance w c (change op arg) (loaded read) spurious =
    let v = apply w op read arg in
    if out_of_bounds c v
    then (c, over)
    else (if (c.value == read) && not spurious
        then (record c { value = v }, over)
        else (c, checked))
advance w c (change op arg) over spurious = (c, over)
advance w c (reset v) ready spurious = if out_of_bounds c v then (c, over) else (c, checked)
advance w c (reset v) checked spurious = (c, loaded c.value)
advance w c (reset v) (loaded read) spurious =
    if (c.value == read) && not spurious then (record c { value = v }, over) else (c, checked)
advance w c (reset v) over spurious = (c, over)

-- Threads that share the counter, each in one call, and the order in which they take their steps.
pub threads_step : ℕ → Counter → List (Call × Phase) → ℕ → Bool → Counter × List (Call × Phase)
unfolding advance
threads_step w c ts i spurious = elim (get_elem? ts i) [
  | none ↦ (c, ts)
  | some t ↦ ((advance w c t.0 t.1 spurious).0, set ts i (t.0, (advance w c t.0 t.1 spurious).1))
]

pub threads_run :
    ℕ → Counter → List (Call × Phase) → List (ℕ × Bool) → Counter × List (Call × Phase)
unfolding threads_step
threads_run w c ts [] = (c, ts)
threads_run w c ts ((i, spurious) ∷ order) =
    threads_run w (threads_step w c ts i spurious).0 (threads_step w c ts i spurious).1 order
