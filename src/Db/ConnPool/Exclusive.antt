-- ===== src/Db/ConnPool/Exclusive.antt =====
-- hj/db/db_conn_pool.hpp: no connection is in two hands, and a closed pool stays empty.
use high_jump.Common.{
  ℕ, ◌+◌, ◌≤◌, ◌≡◌, refl, ap, Option, some, none, true, List, [], ◌∷◌, copies_in, sum_by-append,
  arith, ◌==◌, ==_iff, Bool-cases, inl, inr, if◌then◌else◌,
}
use high_jump.Db.ConnPool.{
  Pool, Mode, forever, bounded, instant, Phase, waiting, making, checking, failed, confirmed,
  holding, releasing, closing, closing_locked, finished, Event, proceed, timed_out, made, checked,
  take_slot, enter, give_up, is_valid_conn, confirm, release, close_begin, close_finish, step,
}
use high_jump.Db.ConnPool.System.{
  System, has, copies, IsNew, Step, part, acquires, closes, Reach, here, next, sum_at,
}

-- A connection that `_make` has just given.
abbrev given : ℕ → Event → ℕ
given c proceed = 0
given c timed_out = 0
given c (made none) = 0
given c (made (some d)) = if c == d then 1 else 0
given c (checked answer) = 0

-- The copies of `c` in the pool and in the hand of the call, at most `n`.
abbrev CopiesAfter : ℕ → Option (Phase × Pool) → ℕ → Type 0
CopiesAfter c none n = Unit
CopiesAfter c (some (f, q)) n = copies_in c q.idle + has c f ≤ n

take_slot-copies :
    (c : ℕ) (p : Pool) (m : Mode) (idle : List ℕ)
    → p.idle ≡ idle
    → CopiesAfter c (some (take_slot p m idle)) (copies_in c p.idle)
unfolding take_slot
take_slot-copies c p m [] e = ground arith
take_slot-copies c p m (d ∷ cs) e = ground (arith, ap (copies_in c) e)

enter-copies :
    (c : ℕ) (p : Pool) (m : Mode) (e : Event) → CopiesAfter c (enter p m e) (copies_in c p.idle)
unfolding enter
enter-copies c p forever proceed = ground (arith, take_slot-copies c p forever p.idle refl)
enter-copies c p bounded proceed = ground (arith, take_slot-copies c p bounded p.idle refl)
enter-copies c p bounded timed_out = ground (arith, take_slot-copies c p bounded p.idle refl)
enter-copies c p instant proceed = ground (arith, take_slot-copies c p instant p.idle refl)
enter-copies c p m e = tt

give_up-copies :
    (c : ℕ) (p : Pool) (m : Mode) (e : Event) → CopiesAfter c (give_up p m e) (copies_in c p.idle)
unfolding give_up
give_up-copies c p forever proceed = omega arith
give_up-copies c p bounded proceed = omega arith
give_up-copies c p bounded timed_out = omega arith
give_up-copies c p instant timed_out = omega arith
give_up-copies c p m e = tt

CopiesAfter-mono :
    (c : ℕ) (r : Option (Phase × Pool)) (m n : ℕ) → m ≤ n → CopiesAfter c r m → CopiesAfter c r n
CopiesAfter-mono c none m n h a = tt
CopiesAfter-mono c (some (f, q)) m n h a = omega arith

step-copies :
    (c : ℕ) (p : Pool) (f : Phase) (e : Event)
    → CopiesAfter c (step p f e) (copies_in c p.idle + has c f + given c e)
unfolding step confirm release close_begin close_finish is_valid_conn
step-copies c p (waiting m) e =
    CopiesAfter-mono c (enter p m e) (copies_in c p.idle) _ (omega arith) (enter-copies c p m e)
step-copies c p (making m) (made none) = omega arith
step-copies c p (making m) (made (some d)) = omega arith
step-copies c p (checking m d) (checked answer) = ground arith
step-copies c p (failed m) e =
    CopiesAfter-mono c (give_up p m e) (copies_in c p.idle) _ (omega arith) (give_up-copies c p m e)
step-copies c p (confirmed d) proceed = ground arith
step-copies c p (holding d) proceed = omega arith
step-copies c p (releasing d) proceed =
    ground (arith, sum_by-append (λ x. if c == x then 1 else 0) p.idle (d ∷ []))
step-copies c p closing proceed = ground arith
step-copies c p closing_locked proceed = omega arith
step-copies c p f e = tt

part-copies :
    (c : ℕ) (p q : Pool) (f f' : Phase) (e : Event)
    → step p f e ≡ some (f', q)
    → copies_in c q.idle + has c f' ≤ copies_in c p.idle + has c f + given c e
part-copies c p q f f' e h = rw h at (step-copies c p f e)

given_new :
    (c : ℕ) (s : System) (e : Event) → IsNew s e → copies c s ≤ 1 → copies c s + given c e ≤ 1
given_new c s proceed new h = omega arith
given_new c s timed_out new h = omega arith
given_new c s (made none) new h = omega arith
given_new c s (made (some d)) new h = elim (Bool-cases (c == d)) [
  | inl same ↦ rw same (omega (arith, ap (λ x. copies x s) ((==_iff c d).0 same)))
  | inr other ↦ rw other (omega arith)
]
given_new c s (checked answer) new h = omega arith

-- Every connection is idle or in a call's hand, and only once.
abbrev pub IsExclusive : System → Type 0
IsExclusive s = (c : ℕ) → copies c s ≤ 1

Step-IsExclusive : {s t : System} → IsExclusive s → Step s t → IsExclusive t
Step-IsExclusive {s} {t} v (part pre post f f' e before after new h) c = omega (
  arith,
  given_new c s e new (v c),
  part-copies c s.pool t.pool f f' e h,
  sum_at (has c) f pre post before,
  sum_at (has c) f' pre post after,
)
Step-IsExclusive {s} {t} v (acquires m p calls) c = rw (p, calls) (omega (arith, v c))
Step-IsExclusive {s} {t} v (closes p calls) c = rw (p, calls) (omega (arith, v c))

-- If `_make` never gives a connection that the pool still has, no interleaving of calls puts one
-- connection into two handles, or leaves it idle while a call has it.
pub Reach-IsExclusive : {s t : System} → IsExclusive s → Reach s t → IsExclusive t
Reach-IsExclusive v here = v
Reach-IsExclusive v (next r st) = Step-IsExclusive (Reach-IsExclusive v r) st

abbrev pub IsDrained : Pool → Type 0
IsDrained p = (p.closed ≡ true) × (p.idle ≡ [])

abbrev DrainedAfter : Option (Phase × Pool) → Type 0
DrainedAfter none = Unit
DrainedAfter (some (f, q)) = IsDrained q

take_slot-Drained : (p : Pool) (m : Mode) → IsDrained p → DrainedAfter (some (take_slot p m p.idle))
unfolding take_slot
take_slot-Drained p m h = ground arith

enter-Drained : (p : Pool) (m : Mode) (e : Event) → IsDrained p → DrainedAfter (enter p m e)
unfolding enter
enter-Drained p forever proceed h = ground (arith, take_slot-Drained p forever h)
enter-Drained p bounded proceed h = ground (arith, take_slot-Drained p bounded h)
enter-Drained p bounded timed_out h = ground (arith, take_slot-Drained p bounded h)
enter-Drained p instant proceed h = ground (arith, take_slot-Drained p instant h)
enter-Drained p m e h = tt

give_up-Drained : (p : Pool) (m : Mode) (e : Event) → IsDrained p → DrainedAfter (give_up p m e)
unfolding give_up
give_up-Drained p forever proceed h = h
give_up-Drained p bounded proceed h = h
give_up-Drained p bounded timed_out h = h
give_up-Drained p instant timed_out h = h
give_up-Drained p m e h = tt

step-Drained : (p : Pool) (f : Phase) (e : Event) → IsDrained p → DrainedAfter (step p f e)
unfolding step confirm release close_begin close_finish is_valid_conn
step-Drained p (waiting m) e h = enter-Drained p m e h
step-Drained p (making m) (made none) h = h
step-Drained p (making m) (made (some d)) h = h
step-Drained p (checking m d) (checked answer) h = h
step-Drained p (failed m) e h = give_up-Drained p m e h
step-Drained p (confirmed d) proceed h = ground arith
step-Drained p (holding d) proceed h = h
step-Drained p (releasing d) proceed h = ground arith
step-Drained p closing proceed h = ground arith
step-Drained p closing_locked proceed h = (h.0, refl)
step-Drained p f e h = tt

part-Drained :
    (p q : Pool) (f f' : Phase) (e : Event) → IsDrained p → step p f e ≡ some (f', q) → IsDrained q
part-Drained p q f f' e h st = rw st at (step-Drained p f e h)

Reach-IsDrained : {s t : System} → IsDrained s.pool → Reach s t → IsDrained t.pool
Reach-IsDrained h here = h
Reach-IsDrained {s} {t} h (next {t = u} r (part pre post f f' e before after new st)) =
    part-Drained u.pool t.pool f f' e (Reach-IsDrained h r) st
Reach-IsDrained {s} {t} h (next r (acquires m p calls)) = rw p (Reach-IsDrained h r)
Reach-IsDrained {s} {t} h (next r (closes p calls)) = rw p (Reach-IsDrained h r)

-- When the second part of a `close` has run on a pool marked closed, the pool is closed and has no
-- idle connection, and stays so: whatever other calls still release is not kept.
pub closed_stays-IsDrained :
    (s t : System) {u : System}
    → s.pool.closed ≡ true
    → step s.pool closing_locked proceed ≡ some (finished, t.pool)
    → Reach t u
    → IsDrained u.pool
closed_stays-IsDrained s t closed st r = Reach-IsDrained drained r
  where
    drained : IsDrained t.pool
    drained = unfold step close_finish in ground arith
