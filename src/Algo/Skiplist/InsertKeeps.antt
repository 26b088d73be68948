-- ===== src/Algo/Skiplist/InsertKeeps.antt =====
-- hj/algo/skiplist.hpp: after `insert` the links stand for the nodes with the new one in its place.
use high_jump.Common.{
  ℕ, suc, ◌+◌, ◌^◌, ◌<◌, ◌≤◌, ◌≡◌, ◌≢◌, ap, ◌∙◌, Bool, true, false, List, ◌∷◌, ◌++◌, All, none,
  length-append, arith, get_elem?,
}
use high_jump.Algo.Skiplist.{
  Link, Cursor, Skiplist, find_path, new_level, insert_link, insert_at, insert, insert_backward,
  insert_tail, max_level,
}
use high_jump.Algo.Skiplist.Walk.{add_long-below}
use high_jump.Algo.Skiplist.Rank.{forward-link_to}
use high_jump.Algo.Skiplist.Represents.{
  Represents, tall_at, All-append, All-map, last_of, find_path-last_tall,
}
use high_jump.Algo.Skiplist.InsertPath.{All-map₂, tall_after, tall_after-new}
use high_jump.Algo.Skiplist.Insert.{insert_link-Linked}
use high_jump.Algo.Skiplist.Chain.{
  All-insert, Distinct-insert, Linked-at, Relinked, BackwardFrom-insert, predecessor,
  insert_backward-new, insert_link-above, new_backward-Relinked, insert_backward-before,
  Distinct-append, insert_tail-last_of,
}

module _ {ℓ} {K : Type ℓ} (lt : K → K → Bool) (l : Skiplist K) (k : K) (random : ℕ)
    (pre post : List ℕ) (rep : Represents l (pre ++ post)) (small : suc l.length < 2 ^ 64)
    (goes : All (λ m. lt (l.key m) k ≡ true) pre) (stops : All (λ m. lt (l.key m) k ≡ false) post)
    (some_level : 0 < random) where
  abbrev path : ℕ → Cursor
  path = find_path lt l k

  abbrev x : ℕ
  x = l.next_node

  tall_pre : All (λ m. tall_at l 0 m ≡ true) pre
  tall_pre =
      All-map pre (λ m b. ground arith)
        (All-append (λ m. (0 < l.height m) × (l.height m ≤ l.level)) pre post rep.heights).0

  tall_post : All (λ m. tall_after l random 0 m ≡ true) post
  tall_post =
      All-map₂ post (λ m b c. ground arith)
        (All-append (λ m. (0 < l.height m) × (l.height m ≤ l.level)) pre post rep.heights).1
        (All-append (λ m. (0 < m) × (m < l.next_node)) pre post rep.fresh).1

  others : All (λ m. m ≢ l.next_node) (pre ++ post)
  others = All-map (pre ++ post) (λ m b. ground arith) rep.fresh

  some_new_level : 0 < new_level l path random
  unfolding new_level
  some_new_level = ground (arith, rep.in_use)

  -- On the lowest level the new node links to the first of those behind it.
  next_of_new : (insert_link l path random x 0).forward ≡ get_elem? post 0
  next_of_new =
      let ls =
        (insert_link-Linked lt l k random pre post rep small goes stops some_level 0
          some_new_level).1 in
      let e =
        Linked-at x (tall_after l random 0) (λ m. insert_link l path random m 0) pre post ls
          (tall_after-new l random 0 ∙ (ground arith)) in
      ap (λ (c : Link). c.forward) e ∙ forward-link_to (tall_after l random 0) 0 post tall_post

  new-backward : insert_backward l path random x ≡ last_of none pre
  new-backward =
      let e = find_path-last_tall l pre post rep (omega arith) lt k 0 goes stops rep.in_use in
      insert_backward-new l path random
      ∙ (rw e (
          predecessor (tall_at l 0) pre tall_pre (
            All-map pre (λ m b. b.0)
              (All-append (λ m. (0 < m) × (m < l.next_node)) pre post rep.fresh).0)))

  relinked : Relinked x l.backward (insert_backward l path random) post
  relinked =
      new_backward-Relinked l path random post next_of_new (Distinct-append pre post rep.distinct)
        (All-append (λ m. m ≢ l.next_node) pre post others).1

  same-backward : All (λ m. insert_backward l path random m ≡ l.backward m) pre
  same-backward =
      insert_backward-before l path random pre post next_of_new rep.distinct
        (All-append (λ m. m ≢ l.next_node) pre post others).0

  new-tail : insert_tail l path random ≡ last_of none (pre ++ (x ∷ post))
  new-tail = insert_tail-last_of l path random pre post next_of_new rep.last

  pub insert-Represents :
      random ≤ max_level → Represents (insert lt l k random) (pre ++ (l.next_node ∷ post))
  unfolding insert insert_at new_level
  insert-Represents limit = record {
    header =
        λ i h. (insert_link-Linked lt l k random pre post rep small goes stops some_level i h).0;
    nodes =
        λ i h. (insert_link-Linked lt l k random pre post rep small goes stops some_level i h).1;
    above = λ i h. rw (insert_link-above l path random i h) (rep.above i (ground arith));
    heights =
        All-insert x
          (λ m.
            (0 < (insert lt l k random).height m)
            × ((insert lt l k random).height m ≤ new_level l path random))
          pre post (ground arith)
          (All-map₂ (pre ++ post) (λ m b c. ground arith) rep.heights rep.fresh);
    fresh =
        All-insert x (λ m. (0 < m) × (m < l.next_node + 1)) pre post (ground (arith, rep.started))
          (All-map (pre ++ post) (λ m b. ground arith) rep.fresh);
    distinct = Distinct-insert x pre post others rep.distinct;
    counted =
        add_long-below l.length 1 (omega arith)
        ∙ (omega (arith, rep.counted, length-append pre post, length-append pre (x ∷ post)));
    back =
        BackwardFrom-insert x l.backward (insert_backward l path random) none pre post same-backward
          new-backward relinked rep.back;
    last = new-tail;
    in_use = some_new_level;
    limited = ground (arith, rep.limited);
    started = omega arith;
  }
