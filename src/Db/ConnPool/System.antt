-- ===== src/Db/ConnPool/System.antt =====
-- hj/db/db_conn_pool.hpp: any number of calls on one pool, their parts interleaved in any order.
use high_jump.Common.{
  ℕ, ◌+◌, ◌^◌, ◌<◌, ◌≡◌, sym, Bool, Option, some, none, List, [], ◌∷◌, ◌++◌, length, copies_in,
  sum_by, sum_by-append, arith, ◌==◌, if◌then◌else◌,
}
use high_jump.Db.ConnPool.{
  Pool, construct, init_loop, Mode, Phase, waiting, making, checking, failed, confirmed, holding,
  releasing, closing, closing_locked, finished, Event, proceed, timed_out, made, checked, step,
}
use high_jump.Db.ConnPool.Balance.{held, Sound, step-Sound, create-Sound}

pub record System : Type 0 where
  pub pool : Pool
  pub calls : List Phase

-- The connection that a call has in hand.
abbrev pub has : ℕ → Phase → ℕ
has c (waiting m) = 0
has c (making m) = 0
has c (checking m d) = if c == d then 1 else 0
has c (failed m) = 0
has c (confirmed d) = if c == d then 1 else 0
has c (holding d) = if c == d then 1 else 0
has c (releasing d) = if c == d then 1 else 0
has c closing = 0
has c closing_locked = 0
has c finished = 0

-- How often a connection is idle or in a call's hand.
abbrev pub copies : ℕ → System → ℕ
copies c s = copies_in c s.pool.idle + sum_by (has c) s.calls

-- `_make` gives a connection that the pool does not have.
abbrev pub IsNew : System → Event → Type 0
IsNew s proceed = Unit
IsNew s timed_out = Unit
IsNew s (made none) = Unit
IsNew s (made (some c)) = copies c s ≡ 0
IsNew s (checked answer) = Unit

-- One part of one call, or a new call.
pub data Step (s : System) : System → Type 0 where
  part :
      {t : System} (pre post : List Phase) (f f' : Phase) (e : Event)
      → s.calls ≡ pre ++ (f ∷ post)
      → t.calls ≡ pre ++ (f' ∷ post)
      → IsNew s e
      → step s.pool f e ≡ some (f', t.pool)
      → Step s t
  acquires : {t : System} (m : Mode) → t.pool ≡ s.pool → t.calls ≡ waiting m ∷ s.calls → Step s t
  closes : {t : System} → t.pool ≡ s.pool → t.calls ≡ closing ∷ s.calls → Step s t

pub data Reach (s : System) : System → Type 0 where
  here : Reach s s
  next : {t u : System} → Reach s t → Step t u → Reach s u

abbrev pub IsSound : System → Type 0
IsSound s = Sound s.pool (sum_by held s.calls)

part-Sound :
    (p q : Pool) (f f' : Phase) (e : Event) (rest : ℕ)
    → Sound p (held f + rest)
    → step p f e ≡ some (f', q)
    → Sound q (held f' + rest)
part-Sound p q f f' e rest s h = rw h at (step-Sound p f e rest s)

Sound-slots : (p : Pool) {m n : ℕ} → m ≡ n → Sound p m → Sound p n
Sound-slots p e s = rw (← e) s

pub sum_at :
    (g : Phase → ℕ) (f : Phase) (pre post : List Phase) {calls : List Phase}
    → calls ≡ pre ++ (f ∷ post)
    → sum_by g calls ≡ g f + (sum_by g pre + sum_by g post)
sum_at g f pre post e = rw e (omega (arith, sum_by-append g pre (f ∷ post)))

pub Step-IsSound : {s t : System} → IsSound s → Step s t → IsSound t
Step-IsSound {s} {t} v (part pre post f f' e before after new h) =
    Sound-slots t.pool (sym (sum_at held f' pre post after)) (
      part-Sound s.pool t.pool f f' e (sum_by held pre + sum_by held post)
        (Sound-slots s.pool (sum_at held f pre post before) v) h)
Step-IsSound {s} {t} v (acquires m p c) = rw (p, c) (Sound-slots s.pool (omega arith) v)
Step-IsSound {s} {t} v (closes p c) = rw (p, c) (Sound-slots s.pool (omega arith) v)

Reach-IsSound : {s t : System} → IsSound s → Reach s t → IsSound t
Reach-IsSound v here = v
Reach-IsSound v (next r st) = Step-IsSound (Reach-IsSound v r) st

-- A pool as `create` makes it, before any call.
abbrev pub created : ℕ → ℕ → Bool → List (Option ℕ) → System
created capa min_size has_check results = record {
  pool = init_loop (construct capa min_size has_check) results;
  calls = [];
}

-- Along every interleaving of any number of calls from a new pool, `_total_cnt` is the number of
-- idle connections and of slots held by calls, and it stays within the capacity.
pub created-Sound :
    (capa min_size : ℕ) (has_check : Bool) (results : List (Option ℕ)) {t : System}
    → capa < 2 ^ 64
    → length results ≡ (construct capa min_size has_check).min_size
    → Reach (created capa min_size has_check results) t
    → IsSound t
created-Sound capa min_size has_check results word h r =
    Reach-IsSound (create-Sound capa min_size has_check results word h) r
