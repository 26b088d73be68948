-- ===== src/Db/ConnPool/Balance.antt =====
-- hj/db/db_conn_pool.hpp: `_total_cnt` counts the slots, one part of a call at a time.
use high_jump.Common.{
  ℕ, ◌+◌, ◌^◌, ◌≤◌, ◌<◌, ◌≡◌, refl, ap, Bool, Option, none, some, List, [], ◌∷◌, length,
  length-append, arith,
}
use high_jump.Db.ConnPool.{
  Pool, increment, decrease, construct, init_loop, Mode, forever, bounded, instant, Phase, waiting,
  making, checking, failed, confirmed, holding, releasing, closing, closing_locked, finished, Event,
  proceed, timed_out, made, checked, take_slot, enter, give_up, is_valid_conn, decrease_guarded,
  confirm, release, close_begin, close_finish, step,
}

-- The slots that a call holds beside the idle connections.
abbrev pub held : Phase → ℕ
held (waiting m) = 0
held (making m) = 1
held (checking m c) = 1
held (failed m) = 1
held (confirmed c) = 1
held (holding c) = 1
held (releasing c) = 1
held closing = 0
held closing_locked = 0
held finished = 0

pub record Sound (p : Pool) (slots : ℕ) : Type 0 where
  pub balance : p.total ≡ length p.idle + slots
  pub within : p.total ≤ p.capa
  pub few_idle : length p.idle ≤ p.min_size
  pub min_fits : p.min_size ≤ p.capa
  pub word : p.capa < 2 ^ 64

-- The same of the state that a part of a call leaves, if it runs at all.
abbrev pub SoundAfter : Option (Phase × Pool) → ℕ → Type 0
SoundAfter none rest = Unit
SoundAfter (some (f, q)) rest = Sound q (held f + rest)

Sound-zero : (p : Pool) (rest : ℕ) → Sound p (0 + rest) → Sound p rest
Sound-zero p rest s = ground arith

take_slot-Sound :
    (p : Pool) (m : Mode) (idle : List ℕ) (rest : ℕ)
    → p.idle ≡ idle
    → Sound p rest
    → SoundAfter (some (take_slot p m idle)) rest
unfolding take_slot increment
take_slot-Sound p m [] rest e s = ground arith
take_slot-Sound p m (c ∷ cs) rest e s = ground (arith, ap length e)

enter-Sound :
    (p : Pool) (m : Mode) (e : Event) (rest : ℕ) → Sound p rest → SoundAfter (enter p m e) rest
unfolding enter
enter-Sound p forever proceed rest s = ground (arith, take_slot-Sound p forever p.idle rest refl s)
enter-Sound p bounded proceed rest s = ground (arith, take_slot-Sound p bounded p.idle rest refl s)
enter-Sound p bounded timed_out rest s =
    ground (arith, take_slot-Sound p bounded p.idle rest refl s)
enter-Sound p instant proceed rest s = ground (arith, take_slot-Sound p instant p.idle rest refl s)
enter-Sound p m e rest s = tt

give_up-Sound :
    (p : Pool) (m : Mode) (e : Event) (rest : ℕ)
    → Sound p (1 + rest)
    → SoundAfter (give_up p m e) rest
unfolding give_up decrease
give_up-Sound p forever proceed rest s = ground arith
give_up-Sound p bounded proceed rest s = ground arith
give_up-Sound p bounded timed_out rest s = ground arith
give_up-Sound p instant timed_out rest s = ground arith
give_up-Sound p m e rest s = tt

confirm-Sound : (p : Pool) (c rest : ℕ) → Sound p (1 + rest) → SoundAfter (some (confirm p c)) rest
unfolding confirm decrease_guarded decrease
confirm-Sound p c rest s = ground arith

release-Sound : (p : Pool) (c rest : ℕ) → Sound p (1 + rest) → Sound (release p c) (0 + rest)
unfolding release decrease_guarded decrease
release-Sound p c rest s = ground (arith, length-append p.idle (c ∷ []))

close_finish-Sound : (p : Pool) (rest : ℕ) → Sound p (0 + rest) → Sound (close_finish p) (0 + rest)
unfolding close_finish decrease
close_finish-Sound p rest s = ground arith

-- Each part of a call, whatever the environment decides, keeps `_total_cnt` equal to the idle
-- connections and the slots held by calls, and within the capacity; the idle connections stay within
-- the minimal size. So the counter never wraps, and its guarded decrements are never at 0.
pub step-Sound :
    (p : Pool) (f : Phase) (e : Event) (rest : ℕ)
    → Sound p (held f + rest)
    → SoundAfter (step p f e) rest
unfolding step close_begin is_valid_conn
step-Sound p (waiting m) e rest s = enter-Sound p m e rest (Sound-zero p rest s)
step-Sound p (making m) (made none) rest s = s
step-Sound p (making m) (made (some c)) rest s = s
step-Sound p (checking m c) (checked answer) rest s = ground arith
step-Sound p (failed m) e rest s = give_up-Sound p m e rest s
step-Sound p (confirmed c) proceed rest s = confirm-Sound p c rest s
step-Sound p (holding c) proceed rest s = s
step-Sound p (releasing c) proceed rest s = release-Sound p c rest s
step-Sound p closing proceed rest s = ground arith
step-Sound p closing_locked proceed rest s = close_finish-Sound p rest s
step-Sound p f e rest s = tt

-- A pool that is made with any results of `_make` starts so, with no slot held by a call.
init_loop-Sound :
    (results : List (Option ℕ)) (p : Pool)
    → Sound p 0
    → length p.idle + length results ≤ p.min_size
    → Sound (init_loop p results) 0
unfolding init_loop increment
init_loop-Sound [] p s h = s
init_loop-Sound (none ∷ results) p s h = init_loop-Sound results p s (omega arith)
init_loop-Sound (some c ∷ results) p s h =
    init_loop-Sound results _ (ground (arith, length-append p.idle (c ∷ [])))
      (omega (arith, length-append p.idle (c ∷ [])))

pub create-Sound :
    (capa min_size : ℕ) (has_check : Bool) (results : List (Option ℕ))
    → capa < 2 ^ 64
    → length results ≡ (construct capa min_size has_check).min_size
    → Sound (init_loop (construct capa min_size has_check) results) 0
unfolding construct
create-Sound capa min_size has_check results word h =
    init_loop-Sound results _ (ground arith) (omega (arith, h))
