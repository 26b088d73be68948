-- ===== src/Sync/Counter/Total.antt =====
-- hj/sync/counter.hpp: threads that count together, and a counter with the default bounds.
use native.Mathlib.Nat.{mod-eq_of_lt, mod-eq-sub-mod}
use high_jump.Common.{
  ℕ, zero, suc, ◌+◌, ◌-◌, ◌*◌, ◌^◌, ◌%◌, ◌<◌, ◌≤◌, ◌≡◌, refl, Bool, true, false, not, ◌&&◌, ◌||◌,
  Bool-cases, inl, inr, Option, none, some, List, [], ◌∷◌, All, map, arith, ltb, ◌==◌, get_elem?,
  set, ◌∙◌, sym, sum_by, replicate,
}
use high_jump.Sync.Counter.{
  Counter, with_step, apply, add, subtract, multiply, divide, out_of_bounds, Call, change, reset,
  inc, Phase, ready, checked, loaded, over, advance, threads_step, threads_run,
}
use high_jump.Sync.Counter.Bounded.{
  start, threads_step-none, threads_step-some, All-get_elem?, All-set,
}

-- What a call that is not over will still add.
owed_by : ℕ → Phase → ℕ
owed_by width over = 0
owed_by width ready = width
owed_by width checked = width
owed_by width (loaded r) = width

abbrev owed : ℕ → List (Call × Phase) → ℕ
owed width = sum_by (λ t. owed_by width t.1)

-- A call adds the step, and has read at most the value.
abbrev Counts : Counter → Call × Phase → Type 0
Counts c (change add n, ready) = n ≡ c.step
Counts c (change add n, checked) = n ≡ c.step
Counts c (change add n, loaded r) = (n ≡ c.step) × (r ≤ c.value) × (c.min ≤ r)
Counts c (change add n, over) = n ≡ c.step
Counts c (change op n, p) = ⊥
Counts c (reset v, p) = ⊥

record Counting (w : ℕ) (total : ℕ) (c : Counter) (ts : List (Call × Phase)) : Type 0 where
  sum : c.value + owed c.step ts ≡ total
  fits : total ≤ c.max
  narrow : c.max < 2 ^ w
  low : c.min ≤ c.value
  each : All (Counts c) ts

sum_by-set :
    (f : Call × Phase → ℕ) (ts : List (Call × Phase)) (i : ℕ) {t : Call × Phase} (u : Call × Phase)
    → get_elem? ts i ≡ some t
    → sum_by f (set ts i u) + f t ≡ sum_by f ts + f u
sum_by-set f [] i u e = cc
sum_by-set f (s ∷ ts) zero {t} u e = let same : s ≡ t = ground arith in rw same (omega arith)
sum_by-set f (s ∷ ts) (suc i) u e = omega (arith, sum_by-set f ts i u e)

-- A higher value keeps what the other calls need.
Counts-mono :
    (c d : Counter) (ts : List (Call × Phase))
    → c.value ≤ d.value
    → d.step ≡ c.step
    → d.min ≡ c.min
    → All (Counts c) ts
    → All (Counts d) ts
Counts-mono c d [] v s m h = tt
Counts-mono c d ((change add n, ready) ∷ ts) v s m (h, hs) =
    (h ∙ sym s, Counts-mono c d ts v s m hs)
Counts-mono c d ((change add n, checked) ∷ ts) v s m (h, hs) =
    (h ∙ sym s, Counts-mono c d ts v s m hs)
Counts-mono c d ((change add n, loaded r) ∷ ts) v s m ((h, g, b), hs) =
    ((h ∙ sym s, omega arith, omega arith), Counts-mono c d ts v s m hs)
Counts-mono c d ((change add n, over) ∷ ts) v s m (h, hs) = (h ∙ sym s, Counts-mono c d ts v s m hs)
Counts-mono c d ((change _ n, p) ∷ ts) v s m (h, hs) = elim h [ ]
Counts-mono c d ((reset n, p) ∷ ts) v s m (h, hs) = elim h [ ]

module _ (w total : ℕ) (c : Counter) (ts : List (Call × Phase)) (i : ℕ) (s : Bool)
    (counting : Counting w total c ts) where
  -- A step that changes the phase only, to one that owes as much.
  stay :
      (call : Call) (p q : Phase)
      → get_elem? ts i ≡ some (call, p)
      → owed_by c.step q ≡ owed_by c.step p
      → Counts c (call, q)
      → Counting w total c (set ts i (call, q))
  stay call p q e same h = record {
    sum = omega (arith, counting.sum, sum_by-set (λ t. owed_by c.step t.1) ts i (call, q) e);
    fits = counting.fits;
    narrow = counting.narrow;
    low = counting.low;
    each = All-set (Counts c) ts i counting.each h;
  }

  -- The exchange that succeeds.
  done :
      (n r : ℕ)
      → get_elem? ts i ≡ some (change add n, loaded r)
      → n ≡ c.step
      → r ≡ c.value
      → Counting w total (record c { value = r + n }) (set ts i (change add n, over))
  unfolding owed_by
  done n r e h g = record {
    sum =
        omega
          (arith, counting.sum, sum_by-set (λ t. owed_by c.step t.1) ts i (change add n, over) e);
    fits = counting.fits;
    narrow = counting.narrow;
    low = omega (arith, counting.low);
    each =
        All-set (Counts (record c { value = r + n })) ts i
          (Counts-mono c (record c { value = r + n }) ts (omega arith) refl refl counting.each) h;
  }

  advance-Counting :
      (call : Call) (p : Phase)
      → get_elem? ts i ≡ some (call, p)
      → Counts c (call, p)
      → Counting w total (advance w c call p s).0 (set ts i (call, (advance w c call p s).1))
  unfolding advance apply out_of_bounds owed_by
  advance-Counting (change add n) ready e h =
      stay (change add n) ready (loaded c.value) e refl (h, omega arith, counting.low)
  advance-Counting (change add n) checked e h =
      stay (change add n) checked (loaded c.value) e refl (h, omega arith, counting.low)
  advance-Counting (change add n) (loaded r) e (h, g, b) =
      let room = sum_by-set (λ t. owed_by c.step t.1) ts i (change add n, over) e in
      let most : r + n ≤ total = omega (arith, room, counting.sum) in
      let small : r + n < 2 ^ w = omega (arith, counting.fits, counting.narrow) in
      let v : (r + n) % 2 ^ w ≡ r + n = mod-eq_of_lt small in
      let inside : (ltb c.max (r + n) || ltb (r + n) c.min) ≡ false =
        ground (arith, counting.fits) in
      rw (v, inside)
        (elim (Bool-cases ((c.value == r) && not s)) [
          | inl t ↦ rw t (done n r e h (ground arith))
          | inr t ↦ rw t (stay (change add n) (loaded r) checked e refl h)
        ])
  advance-Counting (change add n) over e h = stay (change add n) over over e refl h
  advance-Counting (change subtract n) p e h = elim h [ ]
  advance-Counting (change multiply n) p e h = elim h [ ]
  advance-Counting (change divide n) p e h = elim h [ ]
  advance-Counting (reset v) p e h = elim h [ ]

threads_step-Counting :
    (w total : ℕ) (c : Counter) (ts : List (Call × Phase)) (i : ℕ) (s : Bool)
    → Counting w total c ts
    → Counting w total (threads_step w c ts i s).0 (threads_step w c ts i s).1
threads_step-Counting w total c ts i s h = by_thread (get_elem? ts i) refl
  where
    by_thread :
        (o : Option (Call × Phase))
        → get_elem? ts i ≡ o
        → Counting w total (threads_step w c ts i s).0 (threads_step w c ts i s).1
    by_thread none e = rw (threads_step-none w c ts i s e) h
    by_thread (some (call, p)) e =
        rw (threads_step-some w c ts i s e)
          (advance-Counting w total c ts i s h call p e (All-get_elem? (Counts c) ts i h.each e))

threads_run-Counting :
    (w total : ℕ) (c : Counter) (ts : List (Call × Phase)) (order : List (ℕ × Bool))
    → Counting w total c ts
    → Counting w total (threads_run w c ts order).0 (threads_run w c ts order).1
unfolding threads_run
threads_run-Counting w total c ts [] h = h
threads_run-Counting w total c ts ((i, s) ∷ order) h =
    threads_run-Counting w total (threads_step w c ts i s).0 (threads_step w c ts i s).1 order
      (threads_step-Counting w total c ts i s h)

-- Every call is at its end.
abbrev pub AllOver : List (Call × Phase) → Type 0
AllOver = All (λ t. t.1 ≡ over)

owed_nothing : (width : ℕ) (ts : List (Call × Phase)) → AllOver ts → owed width ts ≡ 0
unfolding owed_by
owed_nothing width [] h = refl
owed_nothing width ((call, p) ∷ ts) (h, hs) = rw h (omega (arith, owed_nothing width ts hs))

owed_at_start : (c : Counter) (n : ℕ) → owed c.step (map start (replicate n (inc c))) ≡ n * c.step
unfolding owed_by inc
owed_at_start c zero = omega arith
owed_at_start c (suc n) =
    let m : suc n * c.step ≡ c.step + n * c.step = grind arith in rw (m, owed_at_start c n) refl

starts : (c : Counter) (n : ℕ) → All (Counts c) (map start (replicate n (inc c)))
unfolding inc
starts c zero = tt
starts c (suc n) = (refl, starts c n)

-- When threads that each increment once are all through, in whatever order and with whatever failed
-- exchanges, the counter has gone up by their number of steps, if that is within its bounds.
pub threads_run-inc :
    (w n : ℕ) (c : Counter) (order : List (ℕ × Bool))
    → c.min ≤ c.value
    → c.value + n * c.step ≤ c.max
    → c.max < 2 ^ w
    → AllOver (threads_run w c (map start (replicate n (inc c))) order).1
    → (threads_run w c (map start (replicate n (inc c))) order).0.value ≡ c.value + n * c.step
threads_run-inc w n c order low fits narrow ends =
    let ts = map start (replicate n (inc c)) in
    let h = threads_run-Counting w (c.value + n * c.step) c ts order (record {
      sum = omega (arith, owed_at_start c n);
      fits = fits;
      narrow = narrow;
      low = low;
      each = starts c n;
    }) in
    omega (
      arith,
      h.sum,
      owed_nothing (threads_run w c ts order).0.step (threads_run w c ts order).1 ends,
    )

-- A counter of an unsigned type of at least 32 bits with the greatest bound, which the constructors set by default, does not
-- refuse an increment that is too large: the value goes on at the bottom.
pub default_wraps :
    (w value step : ℕ)
    → 32 ≤ w
    → value < 2 ^ w
    → step < 2 ^ w
    → 2 ^ w ≤ value + step
    → advance w (with_step w value 0 step) (inc (with_step w value 0 step)) (loaded value) false
      ≡ (with_step w (value + step - 2 ^ w) 0 step, over)
unfolding advance apply out_of_bounds with_step inc
default_wraps w value step wide a b h =
    let r : value + step - 2 ^ w < 2 ^ w = omega arith in
    let m : (value + step) % 2 ^ w ≡ value + step - 2 ^ w = mod-eq-sub-mod h ∙ mod-eq_of_lt r in
    let g : (ltb (2 ^ w - 1) (value + step - 2 ^ w) || ltb (value + step - 2 ^ w) 0) ≡ false =
      ground arith in
    let t : ((value == value) && true) ≡ true = ground arith in rw (m, g, t) refl
