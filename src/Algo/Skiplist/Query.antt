-- ===== src/Algo/Skiplist/Query.antt =====
-- hj/algo/skiplist.hpp: `validate`, `first_in_range` and `range_by_rank`.
pub mod Sound
pub mod First
pub mod RankSlice
use high_jump.Common.{
  ℕ, zero, suc, ◌+◌, ◌-◌, Bool, true, false, not, ◌&&◌, ◌||◌, leb, ltb, Option, none, some, List,
  [], ◌∷◌, ◌==◌, if◌then◌else◌, length,
}
use high_jump.Algo.Skiplist.{
  add_long, sub_long, Link, Cursor, Skiplist, descend, start, get_element_by_rank,
}

module _ {ℓ κ} {K : Type ℓ} {S : Type κ} (score : K → S) (score_lt : S → S → Bool) where
  -- The loop of `validate`: none where it returns early, and else the number of nodes.
  pub validate_loop : Skiplist K → ℕ → Option ℕ → ℕ → Option ℕ
  validate_loop l zero next seen = some seen
  validate_loop l (suc fuel) none seen = some seen
  validate_loop l (suc fuel) (some x) seen =
      let next = (l.link x 0).forward in
      let rest = validate_loop l fuel next (add_long seen 1) in
      let broken = elim next as (λ o. Bool) [
        | none ↦ false
        | some y ↦ score_lt (score (l.key y)) (score (l.key x))
      ] in
      if broken then none else rest

  pub validate : Skiplist K → Bool
  unfolding validate_loop
  validate l = elim (validate_loop l (suc l.length) (l.link 0 0).forward 0) [
    | none ↦ false
    | some seen ↦ seen == l.length
  ]

  pub is_in_range : Skiplist K → S → S → Bool
  is_in_range l min_score max_score =
      let first_ok = elim (l.link 0 0).forward as (λ o. Bool) [
        | none ↦ false
        | some y ↦ not (score_lt max_score (score (l.key y)))
      ] in
      let last_ok = elim l.tail as (λ o. Bool) [
        | none ↦ false
        | some x ↦ not (score_lt (score (l.key x)) min_score)
      ] in
      not (score_lt max_score min_score) && last_ok && first_ok

  pub first_in_range : Skiplist K → S → S → Option ℕ
  unfolding is_in_range
  first_in_range l min_score max_score =
      let x =
        (descend (λ y r. score_lt (score (l.key y)) min_score) l.link l.length l.level start
          0).node in
      let found = elim (l.link x 0).forward as (λ o. Option ℕ) [
        | none ↦ none
        | some y ↦ if score_lt max_score (score (l.key y)) then none else some y
      ] in
      if is_in_range l min_score max_score then found else none

-- `range_result`.
pub record RangeResult : Type 0 where
  pub nodes : List ℕ
  pub total_in_range : ℕ

module _ {ℓ} {K : Type ℓ} (l : Skiplist K) where
  -- One round of the loops of `range_by_rank`.
  pub collect_one : ℕ → RangeResult → RangeResult
  collect_one rank r = elim (get_element_by_rank l rank) [
    | none ↦ r
    | some x ↦ record { nodes = x ∷ r.nodes; total_in_range = add_long r.total_in_range 1 }
  ]

  -- The rounds for `n` ranks from one on, and for `n` ranks below one; the first round's node stands first.
  pub collect_up : ℕ → ℕ → RangeResult
  unfolding collect_one
  collect_up i zero = record { nodes = []; total_in_range = 0 }
  collect_up i (suc n) = collect_one i (collect_up (i + 1) n)

  pub collect_down : ℕ → ℕ → RangeResult
  unfolding collect_one
  collect_down i zero = record { nodes = []; total_in_range = 0 }
  collect_down i (suc n) = collect_one (i - 1) (collect_down (i - 1) n)

  pub range_by_rank : ℕ → ℕ → Bool → RangeResult
  unfolding collect_up collect_down
  range_by_rank first end_param reverse =
      let final = if leb l.length end_param then sub_long l.length 1 else end_param in
      if ltb end_param first || leb l.length first
      then record { nodes = []; total_in_range = 0 }
      else (if reverse
          then collect_down (final + 1) (final + 1 - first)
          else collect_up first (final + 1 - first))
