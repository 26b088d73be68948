-- ===== src/Sync/Counter/Bounded.antt =====
-- hj/sync/counter.hpp: the value and its bounds.
use high_jump.Common.{
  ℕ, zero, suc, ◌≤◌, ◌≡◌, refl, Bool, not, ◌&&◌, ◌||◌, Bool-cases, inl, inr, Option, none, some,
  List, [], ◌∷◌, map, All, arith, ltb, ◌==◌, get_elem?, set,
}
use high_jump.Sync.Counter.{
  Counter, out_of_bounds, Call, change, reset, Phase, ready, checked, loaded, over, advance,
  threads_step, threads_run,
}

-- The value is within the bounds, and a step leaves them and the step width as they are.
pub record Within (c d : Counter) : Type 0 where
  pub low : d.min ≤ d.value
  pub high : d.value ≤ d.max
  pub same_min : d.min ≡ c.min
  pub same_max : d.max ≡ c.max
  pub same_step : d.step ≡ c.step

-- A `reset` goes on only with a value that is within the bounds.
abbrev pub Allowed : Counter → Call × Phase → Type 0
Allowed c (change op arg, p) = Unit
Allowed c (reset v, ready) = Unit
Allowed c (reset v, checked) = (c.min ≤ v) × (v ≤ c.max)
Allowed c (reset v, loaded r) = (c.min ≤ v) × (v ≤ c.max)
Allowed c (reset v, over) = Unit

advance-Within :
    (w : ℕ) (c d : Counter) (call : Call) (p : Phase) (spurious : Bool)
    → Within c d
    → Allowed c (call, p)
    → Within c (advance w d call p spurious).0 × Allowed c (call, (advance w d call p spurious).1)
unfolding advance out_of_bounds
advance-Within w c d (change op arg) ready s h a = (h, tt)
advance-Within w c d (change op arg) checked s h a = (h, tt)
advance-Within w c d (change op arg) (loaded r) s h a = (ground arith, tt)
advance-Within w c d (change op arg) over s h a = (h, tt)
advance-Within w c d (reset v) ready s h a = elim (Bool-cases (ltb d.max v || ltb v d.min)) [
  | inl t ↦ rw t (h, tt)
  | inr t ↦ rw t (h, ground (arith, h.same_min, h.same_max))
]
advance-Within w c d (reset v) checked s h a = (h, a)
advance-Within w c d (reset v) (loaded r) s h (a, b) = elim (Bool-cases ((d.value == r) && not s)) [
  | inl t ↦ rw t (
    record {
      low = omega (arith, h.same_min);
      high = omega (arith, h.same_max);
      same_min = h.same_min;
      same_max = h.same_max;
      same_step = h.same_step;
    },
    tt,
  )
  | inr t ↦ rw t (h, (a, b))
]
advance-Within w c d (reset v) over s h a = (h, tt)

module _ (P : Call × Phase → Type 0) where
  pub All-get_elem? :
      (ts : List (Call × Phase)) (i : ℕ) {t : Call × Phase}
      → All P ts
      → get_elem? ts i ≡ some t
      → P t
  All-get_elem? [] i h e = cc
  All-get_elem? (s ∷ ts) zero {t} (h, hs) e = let same : s ≡ t = ground arith in rw (← same) h
  All-get_elem? (s ∷ ts) (suc i) (h, hs) e = All-get_elem? ts i hs e

  pub All-set :
      (ts : List (Call × Phase)) (i : ℕ) {t : Call × Phase} → All P ts → P t → All P (set ts i t)
  All-set [] i h p = tt
  All-set (s ∷ ts) zero (h, hs) p = (p, hs)
  All-set (s ∷ ts) (suc i) (h, hs) p = (h, All-set ts i hs p)

pub threads_step-none :
    (w : ℕ) (c : Counter) (ts : List (Call × Phase)) (i : ℕ) (s : Bool)
    → get_elem? ts i ≡ none
    → threads_step w c ts i s ≡ (c, ts)
unfolding threads_step
threads_step-none w c ts i s e = rw (e, threads_step) refl

pub threads_step-some :
    (w : ℕ) (c : Counter) (ts : List (Call × Phase)) (i : ℕ) (s : Bool) {t : Call × Phase}
    → get_elem? ts i ≡ some t
    → threads_step w c ts i s
      ≡ ((advance w c t.0 t.1 s).0, set ts i (t.0, (advance w c t.0 t.1 s).1))
unfolding threads_step
threads_step-some w c ts i s e = rw (e, threads_step) refl

threads_step-Within :
    (w : ℕ) (c d : Counter) (ts : List (Call × Phase)) (i : ℕ) (s : Bool)
    → Within c d
    → All (Allowed c) ts
    → Within c (threads_step w d ts i s).0 × All (Allowed c) (threads_step w d ts i s).1
threads_step-Within w c d ts i s h a = by_thread (get_elem? ts i) refl
  where
    by_thread :
        (o : Option (Call × Phase))
        → get_elem? ts i ≡ o
        → Within c (threads_step w d ts i s).0 × All (Allowed c) (threads_step w d ts i s).1
    by_thread none e = rw (threads_step-none w d ts i s e) (h, a)
    by_thread (some (call, p)) e =
        let r = advance-Within w c d call p s h (All-get_elem? (Allowed c) ts i a e) in
        rw (threads_step-some w d ts i s e) (r.0, All-set (Allowed c) ts i a r.1)

threads_run_from-Within :
    (w : ℕ) (c d : Counter) (ts : List (Call × Phase)) (order : List (ℕ × Bool))
    → Within c d
    → All (Allowed c) ts
    → Within c (threads_run w d ts order).0
unfolding threads_run
threads_run_from-Within w c d ts [] h a = h
threads_run_from-Within w c d ts ((i, s) ∷ order) h a =
    let r = threads_step-Within w c d ts i s h a in
    threads_run_from-Within w c (threads_step w d ts i s).0 (threads_step w d ts i s).1 order r.0
      r.1

-- A call that has not begun.
abbrev pub start : Call → Call × Phase
start call = (call, ready)

-- Whatever changes and resets the threads make and however their steps interleave, a value within the
-- bounds stays within them, and bounds and step width stay the same. No thread assigns to the counter.
pub threads_run-Within :
    (w : ℕ) (c : Counter) (calls : List Call) (order : List (ℕ × Bool))
    → c.min ≤ c.value
    → c.value ≤ c.max
    → Within c (threads_run w c (map start calls) order).0
threads_run-Within w c calls order low high =
    threads_run_from-Within w c c (map start calls) order
      (record { low = low; high = high; same_min = refl; same_max = refl; same_step = refl })
      (starts calls)
  where
    starts : (calls : List Call) → All (Allowed c) (map start calls)
    starts [] = tt
    starts (change op arg ∷ calls) = (tt, starts calls)
    starts (reset v ∷ calls) = (tt, starts calls)
