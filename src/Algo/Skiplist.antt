-- ===== src/Algo/Skiplist.antt =====
-- hj/algo/skiplist.hpp: the list of nodes with forward links and spans on several levels. A node is its
-- number, the header is node 0, and what the nodes hold are functions of the number. `S` is the type
-- of scores (`double`) with its tests `<` and `==`, `compare` the order of the objects.
pub mod Walk
pub mod Level
pub mod Order
pub mod Represents
pub mod Rank
pub mod Find
pub mod InsertLevel
pub mod InsertPath
pub mod Insert
pub mod Chain
pub mod InsertKeeps
pub mod Refines
pub mod Delete
pub mod Query
mod Tests
use high_jump.Common.{
  ℕ, zero, suc, ◌+◌, ◌-◌, ◌^◌, ◌%◌, Bool, true, false, not, ◌&&◌, ◌||◌, Option, none, some, ltb,
  leb, ◌==◌, if◌then◌else◌,
}

-- `unsigned long`.
pub add_long : ℕ → ℕ → ℕ
add_long a b = (a + b) % 2 ^ 64

pub sub_long : ℕ → ℕ → ℕ
sub_long a b = (a + 2 ^ 64 - b) % 2 ^ 64

-- `node_t::level`.
pub record Link : Type 0 where
  pub forward : Option ℕ
  pub span : ℕ

-- A node of the search path, and the number of nodes up to it.
pub record Cursor : Type 0 where
  pub node : ℕ
  pub rank : ℕ

-- `link n i` is `n->_level[i]`; `height` is how many levels a node was made with.
pub record Skiplist {ℓ} (K : Type ℓ) : Type ℓ where
  pub link : ℕ → ℕ → Link
  pub height : ℕ → ℕ
  pub key : ℕ → K
  pub backward : ℕ → Option ℕ
  pub next_node : ℕ
  pub tail : Option ℕ
  pub length : ℕ
  pub level : ℕ

abbrev pub max_level : ℕ
max_level = 32

abbrev pub start : Cursor
start = record { node = 0; rank = 0 }

pub empty_list {ℓ} : {K : Type ℓ} → K → Skiplist K
empty_list key = record {
  link = λ n i. record { forward = none; span = 0 };
  height = λ n. max_level;
  key = λ n. key;
  backward = λ n. none;
  next_node = 1;
  tail = none;
  length = 0;
  level = 1;
}

-- The inner loop of a search: along the links `f` of one level while `go` holds of the next node and
-- the rank it would have. A step passes a node, so `length` steps are enough.
pub advance : (ℕ → ℕ → Bool) → (ℕ → Link) → ℕ → Cursor → Cursor
advance go f zero c = c
advance go f (suc fuel) c = elim (f c.node).forward [
  | none ↦ c
  | some y ↦
      let r = add_long c.rank (f c.node).span in
      let next = advance go f fuel (record { node = y; rank = r }) in if go y r then next else c
]

-- The outer loop, from a level down to 0: `update[i]` with `rank[i]`.
pub descend : (ℕ → ℕ → Bool) → (ℕ → ℕ → Link) → ℕ → ℕ → Cursor → ℕ → Cursor
descend go link fuel zero c j = c
descend go link fuel (suc i) c j =
    let here = advance go (λ n. link n i) fuel c in
    let below = descend go link fuel i here j in if j == i then here else below

-- The order of the nodes, for a key that is a score and an object.
module _ {ℓ κ} {S : Type ℓ} {T : Type κ} (score_lt score_eq : S → S → Bool)
    (compare : T → T → Bool) where
  pub before : S × T → S × T → Bool
  before (s, a) (t, b) = score_lt s t || (score_eq s t && compare a b)

  -- The last test of `get_rank` and `delete_node`.
  pub same_key : S × T → S × T → Bool
  same_key (s, a) (t, b) = score_eq s t && not (compare a b) && not (compare b a)

-- The searches of `insert`, `delete_node` and `get_rank`.
pub find_path {ℓ} : {K : Type ℓ} → (K → K → Bool) → Skiplist K → K → ℕ → Cursor
find_path lt l k = descend (λ y r. lt (l.key y) k) l.link l.length l.level start

-- The part of `insert` after the search, with `random` the result of `_random_level`. Each round of its
-- loops writes to one level only, so the new links are given for a node and a level.
module _ {ℓ} {K : Type ℓ} (l : Skiplist K) (path : ℕ → Cursor) (random : ℕ) where
  -- `update` and `rank` on the levels that are new.
  pub update : ℕ → Cursor
  update i = if leb l.level i then start else path i

  -- The links with the spans of the new levels set.
  pub raised : ℕ → ℕ → Link
  raised n i =
      if leb l.level i && ltb i random && (n == 0)
      then record { forward = (l.link 0 i).forward; span = l.length }
      else l.link n i

  pub new_level : ℕ
  new_level = if ltb l.level random then random else l.level

  -- `rank[0] - rank[i]`.
  pub gap : ℕ → ℕ
  unfolding update
  gap i = sub_long (path 0).rank (update i).rank

  pub insert_link : ℕ → ℕ → Link
  unfolding update raised new_level gap
  insert_link n i =
      let u = (update i).node in
      let old = raised u i in
      if ltb i random
      then (if n == l.next_node
          then record { forward = old.forward; span = sub_long old.span (gap i) }
          else (if n == u
              then record { forward = some l.next_node; span = add_long (gap i) 1 }
              else raised n i))
      else (if ltb i new_level && (n == u)
          then record { forward = old.forward; span = add_long old.span 1 }
          else raised n i)

  pub insert_backward : ℕ → Option ℕ
  unfolding insert_link
  insert_backward n =
      let u = (path 0).node in
      if n == l.next_node
      then (if u == 0 then none else some u)
      else elim (insert_link l.next_node 0).forward [
        | none ↦ l.backward n
        | some y ↦ if n == y then some l.next_node else l.backward n
      ]

  pub insert_tail : Option ℕ
  unfolding insert_link
  insert_tail = elim (insert_link l.next_node 0).forward [
    | none ↦ some l.next_node
    | some y ↦ l.tail
  ]

  pub insert_at : K → Skiplist K
  unfolding insert_link insert_backward insert_tail new_level
  insert_at k = record {
    link = insert_link;
    height = λ n. if n == l.next_node then random else l.height n;
    key = λ n. if n == l.next_node then k else l.key n;
    backward = insert_backward;
    next_node = l.next_node + 1;
    tail = insert_tail;
    length = add_long l.length 1;
    level = new_level;
  }

pub insert {ℓ} : {K : Type ℓ} → (K → K → Bool) → Skiplist K → K → ℕ → Skiplist K
insert lt l k random = insert_at l (find_path lt l k) random k

-- `get_element_by_rank`; `none` is the null pointer.
pub get_element_by_rank {ℓ} : {K : Type ℓ} → Skiplist K → ℕ → Option ℕ
get_element_by_rank l rank =
    let x = (descend (λ y r. ltb (sub_long r 1) rank) l.link l.length l.level start 0).node in
    if leb l.length rank then none else (l.link x 0).forward

-- What `get_rank` looks at after the inner loop of a level.
pub rank_here {ℓ} : {K : Type ℓ} → (K → K → Bool) → Skiplist K → K → ℕ → Cursor → Option ℕ
rank_here same l k i c = elim (l.link c.node i).forward [
  | none ↦ none
  | some y ↦
      if same (l.key y) k then some (sub_long (add_long c.rank (l.link c.node i).span) 1) else none
]

pub rank_loop {ℓ} : {K : Type ℓ} → (K → K → Bool) → (K → K → Bool) → Skiplist K → K → ℕ → Cursor → ℕ
rank_loop lt same l k zero c = l.length
rank_loop lt same l k (suc i) c =
    let here = advance (λ y r. lt (l.key y) k) (λ n. l.link n i) l.length c in
    let below = rank_loop lt same l k i here in
    elim (rank_here same l k i here) [ none ↦ below | some r ↦ r ]

pub get_rank {ℓ} : {K : Type ℓ} → (K → K → Bool) → (K → K → Bool) → Skiplist K → K → ℕ
get_rank lt same l k = rank_loop lt same l k l.level start
