-- ===== src/Db/ConnPool/Tests.antt =====
-- hj/db/db_conn_pool.hpp: one call to its end, and the theorems along such runs.
use high_jump.Common.{ℕ, refl, true, false, some, List, [], ◌∷◌, arith}
use high_jump.Db.ConnPool.{
  Pool, construct, init_loop, Phase, waiting, forever, checking, confirmed, holding, closing_locked,
  finished, proceed, checked, step, increment, decrease, wait_cond,
}
use high_jump.Db.ConnPool.System.{
  System, part, acquires, Reach, here, next, IsSound, created, created-Sound,
}
use high_jump.Db.ConnPool.Exclusive.{
  IsExclusive, Reach-IsExclusive, IsDrained, closed_stays-IsDrained,
}

-- Two slots, one connection made at the start.
abbrev started : System
started = created 2 1 true (some 7 ∷ [])

abbrev pool_of : List ℕ → ℕ → Pool
pool_of idle total = record {
  capa = 2;
  min_size = 1;
  has_check = true;
  idle = idle;
  closed = false;
  total = total;
}

abbrev at : List ℕ → ℕ → Phase → System
at idle total f = record { pool = pool_of idle total; calls = f ∷ [] }

-- A connection is taken, checked, and handed out.
handed_out : Reach started (at [] 1 (holding 7))
unfolding construct init_loop increment step wait_cond
handed_out =
    next
      (next
        (next (next here (acquires {t = at (7 ∷ []) 1 (waiting forever)} forever refl refl)) (
          part {t = at [] 1 (checking forever 7)} [] [] (waiting forever) (checking forever 7)
            proceed refl refl tt refl))
        (part {t = at [] 1 (confirmed 7)} [] [] (checking forever 7) (confirmed 7) (checked true)
          refl refl tt refl))
      (part [] [] (confirmed 7) (holding 7) proceed refl refl tt refl)

created-Sound_example : IsSound (at [] 1 (holding 7))
unfolding construct
created-Sound_example = created-Sound 2 1 true (some 7 ∷ []) (omega arith) refl handed_out

started-IsExclusive : IsExclusive started
unfolding construct init_loop
started-IsExclusive c = ground arith

Reach-IsExclusive_example : IsExclusive (at [] 1 (holding 7))
Reach-IsExclusive_example = Reach-IsExclusive started-IsExclusive handed_out

-- A pool marked closed with one idle connection, as the second part of `close` finds it.
abbrev half_closed : System
half_closed = record {
  pool = record (pool_of (7 ∷ []) 1) { closed = true };
  calls = closing_locked ∷ [];
}

abbrev closed_pool : System
closed_pool = record { pool = record (pool_of [] 0) { closed = true }; calls = finished ∷ [] }

closed_stays-IsDrained_example : IsDrained closed_pool.pool
unfolding step decrease
closed_stays-IsDrained_example = closed_stays-IsDrained half_closed closed_pool refl refl here
