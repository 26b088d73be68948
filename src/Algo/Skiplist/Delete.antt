-- ===== src/Algo/Skiplist/Delete.antt =====
-- hj/algo/skiplist.hpp: `delete_node` and what it does with the node it has found.
pub mod Level
pub mod Steps
pub mod Keeps
pub mod Node
pub mod Range
pub mod RankRange
use high_jump.Common.{
  ℕ, zero, suc, ◌+◌, ◌-◌, Bool, true, false, ◌&&◌, ◌||◌, leb, Option, none, some, ltb, ◌==◌,
  if◌then◌else◌,
}
use high_jump.Algo.Skiplist.{add_long, sub_long, Link, Cursor, Skiplist, find_path, descend, start}

-- Whether a link is to this node, and to none.
pub is_to : ℕ → Option ℕ → Bool
is_to x none = false
is_to x (some y) = y == x

pub is_none : Option ℕ → Bool
is_none none = true
is_none (some y) = false

-- The last loop of `_delete_node_internal`: down from a level while the header has no link there.
pub lowered : (ℕ → Link) → ℕ → ℕ
unfolding is_none
lowered header zero = 0
lowered header (suc zero) = 1
lowered header (suc (suc n)) =
    let below = lowered header (suc n) in
    if is_none (header (suc n)).forward then below else suc (suc n)

-- `_delete_node_internal`, with `path` for `update`. Each round of its loop writes to one level only.
module _ {ℓ} {K : Type ℓ} (l : Skiplist K) (path : ℕ → ℕ) (x : ℕ) where
  pub delete_link : ℕ → ℕ → Link
  unfolding is_to
  delete_link n i =
      let old = l.link n i in
      if ltb i l.level && (n == path i)
      then (if is_to x old.forward
          then record {
            forward = (l.link x i).forward;
            span = add_long old.span (sub_long (l.link x i).span 1);
          }
          else record { forward = old.forward; span = sub_long old.span 1 })
      else old

  pub delete_backward : ℕ → Option ℕ
  unfolding delete_link is_to
  delete_backward n = if is_to n (delete_link x 0).forward then l.backward x else l.backward n

  pub delete_tail : Option ℕ
  unfolding delete_link is_none
  delete_tail = if is_none (delete_link x 0).forward then l.backward x else l.tail

  pub delete_internal : Skiplist K
  unfolding delete_link delete_backward delete_tail lowered
  delete_internal = record {
    link = delete_link;
    height = l.height;
    key = l.key;
    backward = delete_backward;
    next_node = l.next_node;
    tail = delete_tail;
    length = sub_long l.length 1;
    level = lowered (delete_link 0) l.level;
  }

-- The path of `delete_node`.
pub delete_path {ℓ} : {K : Type ℓ} → (K → K → Bool) → Skiplist K → K → ℕ → ℕ
delete_path lt l k i = (find_path lt l k i).node

pub delete_node {ℓ} :
    {K : Type ℓ} → (K → K → Bool) → (K → K → Bool) → Skiplist K → K → Bool × Skiplist K
unfolding delete_path
delete_node lt same l k = elim (l.link (delete_path lt l k 0) 0).forward [
  | none ↦ (false, l)
  | some x ↦
      if same (l.key x) k then (true, delete_internal l (delete_path lt l k) x) else (false, l)
]

-- The second loop of the range removals, with the node to look at and the number of those removed.
pub delete_loop {ℓ} :
    {K : Type ℓ} → (ℕ → ℕ → Bool) → (ℕ → ℕ) → ℕ → Skiplist K → Option ℕ → ℕ → ℕ × Skiplist K
delete_loop go path zero l next removed = (removed, l)
delete_loop go path (suc fuel) l none removed = (removed, l)
delete_loop go path (suc fuel) l (some x) removed =
    let rest =
      delete_loop go path fuel (delete_internal l path x) (l.link x 0).forward
        (add_long removed 1) in
    if go x removed then rest else (removed, l)

-- `score` is the score of a key, with `<` and `<=`.
module _ {ℓ κ} {K : Type ℓ} {S : Type κ} (score : K → S) (score_lt score_le : S → S → Bool) where
  pub score_path : Skiplist K → S → ℕ → ℕ
  score_path l min_score i =
      (descend (λ y r. score_lt (score (l.key y)) min_score) l.link l.length l.level start i).node

  pub delete_range_by_score : Skiplist K → S → S → ℕ × Skiplist K
  unfolding delete_loop score_path
  delete_range_by_score l min_score max_score =
      let first = (l.link (score_path l min_score 0) 0).forward in
      delete_loop (λ x n. score_le (score (l.key x)) max_score) (score_path l min_score) l.length l
        first 0

pub rank_path {ℓ} : {K : Type ℓ} → Skiplist K → ℕ → ℕ → ℕ
rank_path l first i = (descend (λ y r. leb r first) l.link l.length l.level start i).node

pub delete_range_by_rank {ℓ} : {K : Type ℓ} → Skiplist K → ℕ → ℕ → ℕ × Skiplist K
unfolding delete_loop rank_path
delete_range_by_rank l first last =
    let final = if leb l.length last then sub_long l.length 1 else last in
    let here = (l.link (rank_path l first 0) 0).forward in
    if ltb last first || leb l.length first
    then (0, l)
    else delete_loop (λ x n. leb (add_long first n) final) (rank_path l first) l.length l here 0
