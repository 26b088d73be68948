-- ===== src/Algo/Skiplist/Delete/Range.antt =====
-- hj/algo/skiplist.hpp: `delete_range_by_score` and `delete_range_by_rank`.
use high_jump.Common.{
  ℕ, zero, suc, ◌+◌, ◌^◌, ◌<◌, ◌≤◌, ◌≡◌, refl, sym, ap, ◌∙◌, Bool, true, false, not, Bool-cases,
  inl, inr, List, [], ◌∷◌, ◌++◌, All, length, arith, if◌then◌else◌, get_elem?, ◌&&◌, length-append,
}
use high_jump.Algo.Skiplist.{Link, Cursor, Skiplist, descend, start, add_long}
use high_jump.Algo.Skiplist.Delete.{
  delete_internal, delete_loop, delete_range_by_score, score_path, delete_link,
}
use high_jump.Algo.Skiplist.Order.{
  StrictWeak, Sorted, smaller, not_smaller, smaller-append, smaller-All, not_smaller-All,
}
use high_jump.Algo.Skiplist.Walk.{GoesOn, Stops, last_tall, add_long-below}
use high_jump.Algo.Skiplist.Represents.{
  Represents, tall_at, All-append, All-map, GoesOn-of_All, Stops-of_All, search-last_tall,
}
use high_jump.Algo.Skiplist.Rank.{forward-search, forward-link_to}
use high_jump.Algo.Skiplist.Chain.{Linked-at}
use high_jump.Algo.Skiplist.Delete.Steps.{lowered_le}
use high_jump.Algo.Skiplist.Delete.Keeps.{delete_internal-Represents}

-- The nodes that the loop leaves, where `n` are removed already.
unfoldable pub left_by : (ℕ → ℕ → Bool) → ℕ → List ℕ → List ℕ
left_by go n [] = []
left_by go n (y ∷ ys) = let rest = left_by go (suc n) ys in if go y n then rest else y ∷ ys

next_of {ℓ} :
    {K : Type ℓ} (l : Skiplist K) (pre : List ℕ) (y : ℕ) (ys : List ℕ)
    → Represents l (pre ++ (y ∷ ys))
    → (l.link y 0).forward ≡ get_elem? ys 0
next_of l pre y ys rep =
    let ht =
      (All-append (λ m. (0 < l.height m) × (l.height m ≤ l.level)) pre (y ∷ ys) rep.heights).1 in
    let fx =
      Linked-at y (tall_at l 0) (λ m. l.link m 0) pre ys (rep.nodes 0 rep.in_use)
        (ground (arith, ht.0)) in
    ap (λ (c : Link). c.forward) fx
    ∙ forward-link_to (tall_at l 0) 0 ys (All-map ys (λ m b. ground arith) ht.1)

module _ {ℓ} {K : Type ℓ} (go : ℕ → ℕ → Bool) (path : ℕ → ℕ) (pre : List ℕ) where
  abbrev OnPath : Skiplist K → Type 0
  OnPath l = (i : ℕ) → i < l.level → path i ≡ (last_tall (tall_at l i) start 0 pre).node

  -- What the loop returns: the nodes left, the keys unchanged, and the number of those removed.
  unfoldable pub Removed : Skiplist K → ℕ → List ℕ → ℕ × Skiplist K → Type ℓ
  unfolding left_by
  Removed l n ys r =
      Represents r.1 (pre ++ left_by go n ys)
      × (r.1.key ≡ l.key)
      × (r.0 + length (left_by go n ys) ≡ n + length ys)

  OnPath-delete_internal : (l : Skiplist K) (y : ℕ) → OnPath l → OnPath (delete_internal l path y)
  unfolding delete_internal
  OnPath-delete_internal l y on i h =
      on i (omega (arith, lowered_le (delete_link l path y 0) l.level))

  key-delete_internal : (l : Skiplist K) (y : ℕ) → (delete_internal l path y).key ≡ l.key
  unfolding delete_internal
  key-delete_internal l y = refl

  delete_loop-Removed :
      (ys : List ℕ) (fuel n : ℕ) (l : Skiplist K)
      → Represents l (pre ++ ys)
      → l.length < 2 ^ 64
      → OnPath l
      → length ys ≤ fuel
      → n + length ys < 2 ^ 64
      → Removed l n ys (delete_loop go path fuel l (get_elem? ys 0) n)
  unfolding delete_loop left_by Removed
  delete_loop-Removed [] zero n l rep small on h b = (rep, refl, refl)
  delete_loop-Removed [] (suc fuel) n l rep small on h b = (rep, refl, refl)
  delete_loop-Removed (y ∷ ys) zero n l rep small on h b = absurd (omega arith)
  delete_loop-Removed (y ∷ ys) (suc fuel) n l rep small on h b = elim (Bool-cases (go y n)) [
    | inl t ↦
        let rep' = delete_internal-Represents l path pre y ys rep small on in
        let e : add_long n 1 ≡ suc n = add_long-below n 1 (omega arith) ∙ (omega arith) in
        let small' : (delete_internal l path y).length < 2 ^ 64 =
          omega
            (arith, rep'.counted, rep.counted, length-append pre ys, length-append pre (y ∷ ys)) in
        let (r, k, c) =
          delete_loop-Removed ys fuel (suc n) (delete_internal l path y) rep' small'
            (OnPath-delete_internal l y on) (omega arith) (omega arith) in
        rw (t, e, next_of l pre y ys rep) (r, k ∙ key-delete_internal l y, omega arith)
    | inr t ↦ rw t (rep, refl, refl)
  ]

-- The whole of a range removal, from a search that stops behind the nodes `pre`.
module _ {ℓ} {K : Type ℓ} (l : Skiplist K) (pre post : List ℕ) (rep : Represents l (pre ++ post))
    (small : l.length < 2 ^ 64) (search : ℕ → ℕ → Bool) (path : ℕ → ℕ)
    (is_path : (i : ℕ) → path i ≡ (descend search l.link l.length l.level start i).node)
    (goes : GoesOn search 0 pre) (stops : Stops search (length pre) post) where
  pub range-Removed :
      (go : ℕ → ℕ → Bool)
      → Removed go path pre l 0 post (delete_loop go path l.length l (l.link (path 0) 0).forward 0)
  range-Removed go =
      let c = length-append pre post in
      rw (is_path 0, forward-search l pre post rep small search goes stops)
        (delete_loop-Removed go path pre post l.length 0 l rep small
          (λ i h.
            is_path i
            ∙ ap (λ (c : Cursor). c.node)
                (search-last_tall l pre post rep small search i goes stops h))
          (omega (arith, rep.counted)) (omega (arith, rep.counted)))

-- The nodes for which a test fails.
unfoldable pub drop_if : (ℕ → Bool) → List ℕ → List ℕ
drop_if q [] = []
drop_if q (m ∷ ms) = let rest = drop_if q ms in if q m then rest else m ∷ rest

pub drop_if_none : (q : ℕ → Bool) (ms : List ℕ) → All (λ m. q m ≡ false) ms → drop_if q ms ≡ ms
unfolding drop_if
drop_if_none q [] h = refl
drop_if_none q (m ∷ ms) (h, hs) = rw (h, drop_if_none q ms hs) refl

drop_if-append :
    (q : ℕ → Bool) (xs ys : List ℕ) → drop_if q (xs ++ ys) ≡ drop_if q xs ++ drop_if q ys
unfolding drop_if
drop_if-append q [] ys = refl
drop_if-append q (x ∷ xs) ys = elim (Bool-cases (q x)) [
  | inl t ↦ rw t (drop_if-append q xs ys)
  | inr t ↦ rw t (ap (◌∷◌ x) (drop_if-append q xs ys))
]

module _ {ℓ κ} {K : Type ℓ} {S : Type κ} (score : K → S) (score_lt score_le : S → S → Bool)
    (law : StrictWeak score_lt) (le_lt : (a b : S) → score_le a b ≡ not (score_lt b a))
    (l : Skiplist K) (min_score max_score : S) where
  abbrev score_of : ℕ → S
  score_of m = score (l.key m)

  -- The scores that are asked for.
  abbrev pub in_range : ℕ → Bool
  in_range m = not (score_lt (score (l.key m)) min_score) && score_le (score (l.key m)) max_score

  All-above :
      (y : ℕ) (ms : List ℕ)
      → score_le (score_of y) max_score ≡ false
      → All (λ z. score_lt (score_of z) (score_of y) ≡ false) ms
      → All (λ m. in_range m ≡ false) ms
  All-above y [] h s = tt
  All-above y (z ∷ ms) h (s, ss) = (
    ground (
      arith,
      law.between max_score (score_of z) (score_of y),
      le_lt (score_of y) max_score,
      le_lt (score_of z) max_score,
    ),
    All-above y ms h ss,
  )

  left_by-drop_if :
      (n : ℕ) (ms : List ℕ)
      → Sorted score_lt score_of ms
      → All (λ m. score_lt (score_of m) min_score ≡ false) ms
      → left_by (λ x n. score_le (score (l.key x)) max_score) n ms ≡ drop_if in_range ms
  unfolding left_by drop_if
  left_by-drop_if n [] s h = refl
  left_by-drop_if n (m ∷ ms) (s, ss) (h, hs) = elim (Bool-cases (score_le (score_of m) max_score)) [
    | inl t ↦ rw (t, h) (left_by-drop_if (suc n) ms ss hs)
    | inr t ↦ rw (t, h) (ap (◌∷◌ m) (sym (drop_if_none in_range ms (All-above m ms t s))))
  ]

  Sorted-later :
      (pre post : List ℕ) → Sorted score_lt score_of (pre ++ post) → Sorted score_lt score_of post
  Sorted-later [] post s = s
  Sorted-later (m ∷ pre) post (s, ss) = Sorted-later pre post ss

  delete_range_by_score-split :
      (pre post : List ℕ)
      → Represents l (pre ++ post)
      → Sorted score_lt score_of (pre ++ post)
      → l.length < 2 ^ 64
      → All (λ m. score_lt (score_of m) min_score ≡ true) pre
      → All (λ m. score_lt (score_of m) min_score ≡ false) post
      → Represents
          (delete_range_by_score score score_lt score_le l min_score max_score).1
          (drop_if in_range (pre ++ post))
        × ((delete_range_by_score score score_lt score_le l min_score max_score).0
              + length (drop_if in_range (pre ++ post))
            ≡ length (pre ++ post))
  unfolding delete_range_by_score score_path Removed
  delete_range_by_score-split pre post rep sorted small goes stops =
      let e : drop_if in_range (pre ++ post)
          ≡ pre ++ left_by (λ x n. score_le (score (l.key x)) max_score) 0 post =
        drop_if-append in_range pre post
        ∙ (rw
            (
              drop_if_none in_range pre (All-map pre (λ m b. ground arith) goes),
              left_by-drop_if 0 post (Sorted-later pre post sorted) stops,
            )
            refl) in
      let (r, k, c) =
        range-Removed l pre post rep small (λ y r. score_lt (score_of y) min_score)
          (score_path score score_lt score_le l min_score) (λ i. refl)
          (GoesOn-of_All (λ m. score_lt (score_of m) min_score) 0 pre goes)
          (Stops-of_All (λ m. score_lt (score_of m) min_score) (length pre) post stops)
          (λ x n. score_le (score (l.key x)) max_score) in
      rw e (
        r,
        omega (
          arith,
          length-append pre post,
          length-append pre (left_by (λ x n. score_le (score (l.key x)) max_score) 0 post),
        ),
      )

  -- In a list sorted by the scores, `delete_range_by_score` removes exactly the nodes whose score is
  -- in the range, and returns how many they were.
  pub delete_range_by_score-drop_if :
      (ns : List ℕ)
      → Represents l ns
      → Sorted score_lt score_of ns
      → l.length < 2 ^ 64
      → Represents
          (delete_range_by_score score score_lt score_le l min_score max_score).1
          (drop_if in_range ns)
        × ((delete_range_by_score score score_lt score_le l min_score max_score).0
              + length (drop_if in_range ns)
            ≡ length ns)
  delete_range_by_score-drop_if ns rep sorted small =
      let e = smaller-append score_lt score_of min_score ns in
      rw e at (
        delete_range_by_score-split (smaller score_lt score_of min_score ns)
          (not_smaller score_lt score_of min_score ns) (rw e rep) (rw e sorted) small
          (smaller-All score_lt score_of min_score ns)
          (not_smaller-All score_lt score_of law min_score ns sorted))
