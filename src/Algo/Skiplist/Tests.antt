-- ===== src/Algo/Skiplist/Tests.antt =====
-- hj/algo/skiplist.hpp: lists of two nodes, with scores and objects that are numbers.
use high_jump.Common.{
  ℕ, ◌≡◌, refl, Bool, true, false, not, [], ◌∷◌, some, arith, ltb, leb, ◌+◌, ◌==◌, ◌⊎◌, All, ◌&&◌,
}
use high_jump.Algo.Skiplist.{
  Skiplist, empty_list, insert, insert_at, before, same_key, get_element_by_rank, get_rank,
  add_long,
}
use high_jump.Algo.Skiplist.Represents.{Represents}
use high_jump.Algo.Skiplist.Order.{StrictWeak, put, smaller, not_smaller}
use high_jump.Algo.Skiplist.Rank.{get_element_by_rank-Represents}
use high_jump.Algo.Skiplist.Find.{FoundAt, get_rank-Represents}
use high_jump.Algo.Skiplist.Refines.{Holds, empty_list-Holds, insert-Holds}
use high_jump.Algo.Skiplist.Delete.{delete_node}
use high_jump.Algo.Skiplist.Delete.Node.{contains, erase, delete_node-Holds}
use high_jump.Algo.Skiplist.Delete.{delete_range_by_score, delete_range_by_rank}
use high_jump.Algo.Skiplist.Delete.Range.{drop_if, delete_range_by_score-drop_if}
use high_jump.Algo.Skiplist.Delete.RankRange.{delete_range_by_rank-drop}
use high_jump.Algo.Skiplist.Query.{range_by_rank, validate, first_in_range}
use high_jump.Algo.Skiplist.Query.Sound.{in_order, validate-in_order}
use high_jump.Algo.Skiplist.Query.First.{first_where, first_in_range-first_where}
use high_jump.Algo.Skiplist.Query.RankSlice.{reverse, range_by_rank-take}

abbrev lt : ℕ × ℕ → ℕ × ℕ → Bool
lt = before ltb ◌==◌ ltb

abbrev same : ℕ × ℕ → ℕ × ℕ → Bool
same = same_key ltb ◌==◌ ltb

lt-asym : (a b : ℕ × ℕ) → lt a b ≡ true → lt b a ≡ false
unfolding before
lt-asym (a, b) (c, d) h = ground arith

lt-between : (a b c : ℕ × ℕ) → lt a c ≡ true → lt a b ≡ false → lt b c ≡ true
unfolding before
lt-between (a, b) (c, d) (e, f) h g = ground arith

lt-StrictWeak : StrictWeak lt
lt-StrictWeak = record { asym = lt-asym; between = lt-between }

alike : (a b : ℕ × ℕ) → same a b ≡ (not (lt a b) && not (lt b a))
unfolding before same_key
alike (a, b) (c, d) = ground arith

abbrev one_node : Skiplist (ℕ × ℕ)
one_node = insert lt (empty_list (0, 0)) (5, 1) 2

abbrev two_nodes : Skiplist (ℕ × ℕ)
two_nodes = insert lt one_node (3, 1) 1

one_node-Holds : Holds lt one_node (1 ∷ [])
unfolding put smaller not_smaller empty_list
one_node-Holds =
    insert-Holds lt (empty_list (0, 0)) [] (5, 1) 2 lt-StrictWeak (empty_list-Holds lt (0, 0))
      (omega arith) (omega arith) (omega arith)

two_nodes-Holds : Holds lt two_nodes (2 ∷ (1 ∷ []))
unfolding put smaller not_smaller empty_list insert insert_at before add_long
two_nodes-Holds =
    insert-Holds lt one_node (1 ∷ []) (3, 1) 1 lt-StrictWeak one_node-Holds (omega arith)
      (omega arith) (omega arith)

insert-Holds_example : Holds lt (insert lt two_nodes (4, 0) 3) (2 ∷ (3 ∷ (1 ∷ [])))
unfolding put smaller not_smaller empty_list insert insert_at before add_long
insert-Holds_example =
    insert-Holds lt two_nodes (2 ∷ (1 ∷ [])) (4, 0) 3 lt-StrictWeak two_nodes-Holds (omega arith)
      (omega arith) (omega arith)

get_element_by_rank-Represents_example : get_element_by_rank two_nodes 1 ≡ some 1
unfolding empty_list insert insert_at add_long
get_element_by_rank-Represents_example =
    get_element_by_rank-Represents two_nodes (2 ∷ (1 ∷ [])) two_nodes-Holds.0 (omega arith) 1

get_rank-Represents_example :
    FoundAt (λ m. same (two_nodes.key m) (5, 1)) (2 ∷ (1 ∷ [])) (get_rank lt same two_nodes (5, 1))
    ⊎ ((get_rank lt same two_nodes (5, 1) ≡ 2)
        × All (λ m. same (two_nodes.key m) (5, 1) ≡ false) (2 ∷ (1 ∷ [])))
unfolding empty_list insert insert_at add_long
get_rank-Represents_example =
    get_rank-Represents lt same lt-StrictWeak alike two_nodes (2 ∷ (1 ∷ [])) two_nodes-Holds.0
      (omega arith) two_nodes-Holds.1 (5, 1)

delete_node-Holds_example :
    ((delete_node lt same two_nodes (5, 1)).0 ≡ true)
    × Holds lt (delete_node lt same two_nodes (5, 1)).1 (2 ∷ [])
unfolding empty_list insert insert_at add_long before same_key contains erase
delete_node-Holds_example =
    delete_node-Holds lt same two_nodes (5, 1) lt-StrictWeak alike (omega arith) (2 ∷ (1 ∷ []))
      two_nodes-Holds

abbrev score : ℕ × ℕ → ℕ
score k = k.0

ltb-StrictWeak : StrictWeak ltb
ltb-StrictWeak = record { asym = λ a b h. ground arith; between = λ a b c h g. ground arith }

leb-ltb : (a b : ℕ) → leb a b ≡ not (ltb b a)
leb-ltb a b = ground arith

delete_range_by_score-drop_if_example :
    Represents (delete_range_by_score score ltb leb two_nodes 4 9).1 (2 ∷ [])
    × ((delete_range_by_score score ltb leb two_nodes 4 9).0 + 1 ≡ 2)
unfolding empty_list insert insert_at add_long drop_if
delete_range_by_score-drop_if_example =
    delete_range_by_score-drop_if score ltb leb ltb-StrictWeak leb-ltb two_nodes 4 9 (2 ∷ (1 ∷ []))
      two_nodes-Holds.0 ((refl, tt), (tt, tt)) (omega arith)

delete_range_by_rank-drop_example :
    Represents (delete_range_by_rank two_nodes 1 5).1 (2 ∷ [])
    × ((delete_range_by_rank two_nodes 1 5).0 + 1 ≡ 2)
unfolding empty_list insert insert_at add_long
delete_range_by_rank-drop_example =
    delete_range_by_rank-drop two_nodes 1 5 (2 ∷ (1 ∷ [])) two_nodes-Holds.0 (omega arith)
      (omega arith)

range_by_rank-take_example :
    range_by_rank two_nodes 0 7 true ≡ record { nodes = 1 ∷ (2 ∷ []); total_in_range = 2 }
unfolding empty_list insert insert_at add_long reverse
range_by_rank-take_example =
    range_by_rank-take two_nodes (2 ∷ (1 ∷ [])) two_nodes-Holds.0 (omega arith) 0 7 true
      (omega arith)

validate-in_order_example : validate score ltb two_nodes ≡ true
unfolding empty_list insert insert_at add_long in_order
validate-in_order_example =
    validate-in_order score ltb two_nodes (2 ∷ (1 ∷ [])) two_nodes-Holds.0 (omega arith)

first_in_range-first_where_example : first_in_range score ltb two_nodes 4 9 ≡ some 1
unfolding empty_list insert insert_at add_long first_where
first_in_range-first_where_example =
    first_in_range-first_where score ltb ltb-StrictWeak two_nodes 4 9 (2 ∷ (1 ∷ []))
      two_nodes-Holds.0 ((refl, tt), (tt, tt)) (omega arith)
