-- ===== src/Algo/Skiplist/Find.antt =====
-- hj/algo/skiplist.hpp: `get_rank`, which looks for a key on each level on its way down.
use high_jump.Common.{
  ℕ, zero, suc, ◌+◌, ◌-◌, ◌^◌, ◌<◌, ◌≤◌, ◌≡◌, ◌⊎◌, refl, ap, ◌∙◌, Bool, true, false, Bool-cases,
  inl, inr, List, [], ◌∷◌, ◌++◌, All, none, some, length, length-append, arith, get_elem?, not,
  ◌&&◌, if◌then◌else◌,
}
use high_jump.Algo.Skiplist.{
  add_long, sub_long, Link, Cursor, Skiplist, advance, start, rank_here, rank_loop, get_rank,
}
use high_jump.Algo.Skiplist.Walk.{link_to, last_tall}
use high_jump.Algo.Skiplist.Level.{link-last_tall, last_tall_none, advance-from_above}
use high_jump.Algo.Skiplist.Rank.{forward-link_to}
use high_jump.Algo.Skiplist.Order.{
  StrictWeak, Sorted, smaller, not_smaller, smaller-append, smaller-All, not_smaller-All,
}
use high_jump.Algo.Skiplist.Represents.{
  Represents, tall_at, All-append, All-map, GoesOn-of_All, Stops-of_All,
}

pub link_to-cases :
    (tall : ℕ → Bool) (j : ℕ) (ms : List ℕ)
    → ((link_to tall j ms).forward ≡ none × All (λ m. tall m ≡ false) ms)
      ⊎ ((t : ℕ) × (y : ℕ) × ((link_to tall j ms).forward ≡ some y)
          × ((link_to tall j ms).span ≡ suc (j + t))
          × (get_elem? ms t ≡ some y)
          × (t < length ms))
unfolding link_to
link_to-cases tall j [] = inl (refl, tt)
link_to-cases tall j (m ∷ ms) = elim (Bool-cases (tall m)) [
  | inl h ↦ rw h (inr (0, m, refl, omega arith, refl, omega arith))
  | inr h ↦ rw h (elim (link_to-cases tall (suc j) ms) [
    | inl (a, b) ↦ inl (a, (refl, b))
    | inr (t, y, a, b, c, d) ↦ inr (suc t, y, a, omega arith, c, omega arith)
  ])
]

get_elem?-append :
    (pre post : List ℕ) (t : ℕ) → get_elem? (pre ++ post) (length pre + t) ≡ get_elem? post t
get_elem?-append [] post t = let e : 0 + t ≡ t = omega arith in rw e refl
get_elem?-append (m ∷ pre) post t =
    let e : suc (length pre) + t ≡ suc (length pre + t) = omega arith in
    rw e (get_elem?-append pre post t)

forward_any :
    (tall : ℕ → Bool) (j k : ℕ) (ms : List ℕ)
    → (link_to tall j ms).forward ≡ (link_to tall k ms).forward
unfolding link_to
forward_any tall j k [] = refl
forward_any tall j k (m ∷ ms) = elim (Bool-cases (tall m)) [
  | inl h ↦ rw h refl
  | inr h ↦ rw h (forward_any tall (suc j) (suc k) ms)
]

rank_sum : (r w q : ℕ) → r + w ≡ suc q → suc q < 2 ^ 64 → sub_long (add_long r w) 1 ≡ q
unfolding add_long sub_long
rank_sum r w q e h = omega arith

module _ {ℓ} {K : Type ℓ} (same : K → K → Bool) (l : Skiplist K) (k : K) (i : ℕ) (c : Cursor) where
  rank_here-none : (l.link c.node i).forward ≡ none → rank_here same l k i c ≡ none
  unfolding rank_here
  rank_here-none e = rw (e, rank_here) refl

  rank_here-some :
      {y : ℕ}
      → (l.link c.node i).forward ≡ some y
      → rank_here same l k i c ≡ (
          if same (l.key y) k
          then some (sub_long (add_long c.rank (l.link c.node i).span) 1)
          else none)
  unfolding rank_here
  rank_here-some e = rw (e, rank_here) refl

-- The node at a place is as wanted.
abbrev pub FoundAt : (ℕ → Bool) → List ℕ → ℕ → Type 0
FoundAt wanted ns r = (m : ℕ) × (get_elem? ns r ≡ some m) × (wanted m ≡ true) × (r < length ns)

module _ {ℓ} {K : Type ℓ} (lt same : K → K → Bool) (l : Skiplist K) (k : K) (i : ℕ) where
  rank_loop-some :
      (c : Cursor) {here : Cursor} {r : ℕ}
      → advance (λ y r. lt (l.key y) k) (λ n. l.link n i) l.length c ≡ here
      → rank_here same l k i here ≡ some r
      → rank_loop lt same l k (suc i) c ≡ r
  unfolding rank_loop
  rank_loop-some c e f = rw (e, f, rank_loop) refl

  rank_loop_next :
      (c : Cursor)
      → rank_here same l k i (advance (λ y r. lt (l.key y) k) (λ n. l.link n i) l.length c) ≡ none
      → rank_loop lt same l k (suc i) c
        ≡ rank_loop lt same l k i (advance (λ y r. lt (l.key y) k) (λ n. l.link n i) l.length c)
  unfolding rank_loop
  rank_loop_next c f = rw (f, rank_loop) refl

  rank_loop-none :
      (c : Cursor) {here : Cursor}
      → advance (λ y r. lt (l.key y) k) (λ n. l.link n i) l.length c ≡ here
      → rank_here same l k i here ≡ none
      → rank_loop lt same l k (suc i) c ≡ rank_loop lt same l k i here
  rank_loop-none c e f =
      rank_loop_next c (ap (rank_here same l k i) e ∙ f) ∙ ap (rank_loop lt same l k i) e

module _ {ℓ} {K : Type ℓ} (lt same : K → K → Bool) (l : Skiplist K) (k : K) (pre post : List ℕ)
    (rep : Represents l (pre ++ post)) (small : l.length < 2 ^ 64) where
  -- On a level, either the search finds a node, or the next one there is not wanted.
  rank_here-cases :
      (i : ℕ)
      → i < l.level
      → ((r : ℕ) × (rank_here same l k i (last_tall (tall_at l i) start 0 pre) ≡ some r)
          × FoundAt (λ m. same (l.key m) k) (pre ++ post) r)
        ⊎ ((rank_here same l k i (last_tall (tall_at l i) start 0 pre) ≡ none)
            × ((y : ℕ)
                → (link_to (tall_at l i) 0 post).forward ≡ some y
                → same (l.key y) k ≡ false))
  rank_here-cases i h =
      let (j, d, e) =
        link-last_tall (tall_at l i) (λ m. l.link m i) post pre 0 0 0 0 refl (rep.header i h)
          (rep.nodes i h) in
      let c : length (pre ++ post) ≡ length pre + length post = length-append pre post in
      let b : length (pre ++ post) < 2 ^ 64 = omega (arith, rep.counted) in
      let u : Cursor = last_tall (tall_at l i) start 0 pre in
      elim (link_to-cases (tall_at l i) j post) [
        | inl (a, low) ↦ inr (
          rank_here-none same l k i u (ap (λ (x : Link). x.forward) e ∙ a),
          λ y f. ground (arith, forward_any (tall_at l i) 0 j post),
        )
        | inr (t, y, a, w, g, q) ↦
            let r = rank_here-some same l k i u (ap (λ (x : Link). x.forward) e ∙ a) in
            let w' : (l.link u.node i).span ≡ suc (j + t) = ap (λ (x : Link). x.span) e ∙ w in
            let at : sub_long (add_long u.rank (l.link u.node i).span) 1 ≡ length pre + t =
              rank_sum u.rank (l.link u.node i).span (length pre + t) (omega arith) (omega arith) in
            elim (Bool-cases (same (l.key y) k)) [
              | inl hit ↦ inl (
                length pre + t,
                r ∙ (rw (hit, at) refl),
                (y, get_elem?-append pre post t ∙ g, hit, omega arith),
              )
              | inr miss ↦
                  inr
                    (r ∙ (rw miss refl), λ y' f. ground (arith, forward_any (tall_at l i) 0 j post))
            ]
      ]

  -- The next node after the search, on the lowest level.
  NextOk : Type 0
  NextOk = (y : ℕ) → (link_to (tall_at l 0) 0 post).forward ≡ some y → same (l.key y) k ≡ false

  descend_one :
      (goes : All (λ m. lt (l.key m) k ≡ true) pre)
      → (stops : All (λ m. lt (l.key m) k ≡ false) post) → (i : ℕ) → i < l.level
      → advance
          (λ y r. lt (l.key y) k)
          (λ n. l.link n i)
          l.length
          (last_tall (tall_at l (suc i)) start 0 pre)
        ≡ last_tall (tall_at l i) start 0 pre
  descend_one goes stops i h =
      let c : length (pre ++ post) ≡ length pre + length post = length-append pre post in
      let z : 0 + length pre ≡ length pre = omega arith in
      advance-from_above (tall_at l (suc i)) (tall_at l i) (λ y r. lt (l.key y) k) (λ n. l.link n i)
        post (λ m t. ground arith) pre l.length 0 0 0 0 refl (rep.header i h) (rep.nodes i h)
        (GoesOn-of_All (λ m. lt (l.key m) k) 0 pre goes)
        (rw z (Stops-of_All (λ m. lt (l.key m) k) (length pre) post stops))
        (omega (arith, rep.counted)) (omega (arith, rep.counted))

  module _ (goes : All (λ m. lt (l.key m) k ≡ true) pre)
      (stops : All (λ m. lt (l.key m) k ≡ false) post) where
    rank_loop-cases :
        (i : ℕ)
        → i < l.level
        → FoundAt
            (λ m. same (l.key m) k)
            (pre ++ post)
            (rank_loop lt same l k (suc i) (last_tall (tall_at l (suc i)) start 0 pre))
          ⊎ ((rank_loop lt same l k (suc i) (last_tall (tall_at l (suc i)) start 0 pre) ≡ l.length)
              × NextOk)
    unfolding NextOk rank_loop
    rank_loop-cases zero h =
        let c = last_tall (tall_at l 1) start 0 pre in
        let d = descend_one goes stops zero h in
        elim (rank_here-cases zero h) [
          | inl (r, e, found) ↦ rw (rank_loop-some lt same l k zero c d e) (inl found)
          | inr (e, none_next) ↦ rw (rank_loop-none lt same l k zero c d e) (inr (refl, none_next))
        ]
    rank_loop-cases (suc i) h =
        let c = last_tall (tall_at l (suc (suc i))) start 0 pre in
        let d = descend_one goes stops (suc i) h in
        elim (rank_here-cases (suc i) h) [
          | inl (r, e, found) ↦ rw (rank_loop-some lt same l k (suc i) c d e) (inl found)
          | inr (e, none_next) ↦
              rw (rank_loop-none lt same l k (suc i) c d e) (rank_loop-cases i (omega arith))
        ]

    rank_loop-start :
        FoundAt (λ m. same (l.key m) k) (pre ++ post) (rank_loop lt same l k l.level start)
        ⊎ ((rank_loop lt same l k l.level start ≡ l.length)
            × ((y : ℕ) → get_elem? post 0 ≡ some y → same (l.key y) k ≡ false))
    unfolding NextOk
    rank_loop-start =
        let e : suc (l.level - 1) ≡ l.level = omega (arith, rep.in_use) in
        let ht = All-append (λ m. (0 < l.height m) × (l.height m ≤ l.level)) pre post rep.heights in
        let top : last_tall (tall_at l l.level) start 0 pre ≡ start =
          last_tall_none (tall_at l l.level) start 0 pre (All-map pre (λ m b. ground arith) ht.0) in
        let low = forward-link_to (tall_at l 0) 0 post (All-map post (λ m b. ground arith) ht.1) in
        elim (rw (e, top) at (rank_loop-cases (l.level - 1) (omega (arith, rep.in_use)))) [
          | inl found ↦ inl found
          | inr (miss, next) ↦ inr (miss, λ y f. next y (low ∙ f))
        ]

module _ {ℓ} {K : Type ℓ} (lt same : K → K → Bool) (law : StrictWeak lt)
    (alike : (a b : K) → same a b ≡ (not (lt a b) && not (lt b a))) where
  absent_from :
      (key : ℕ → K) (k : K) (m : ℕ) (ms : List ℕ)
      → lt k (key m) ≡ true
      → All (λ y. lt (key y) (key m) ≡ false) ms
      → All (λ y. same (key y) k ≡ false) ms
  absent_from key k m [] h s = tt
  absent_from key k m (y ∷ ms) h (s, ss) =
      (ground (arith, alike (key y) k, law.between k (key y) (key m)), absent_from key k m ms h ss)

  pub absent :
      (key : ℕ → K) (k : K) (ns : List ℕ)
      → Sorted lt key ns
      → ((y : ℕ) → get_elem? (not_smaller lt key k ns) 0 ≡ some y → same (key y) k ≡ false)
      → All (λ y. same (key y) k ≡ false) ns
  unfolding not_smaller
  absent key k [] s h = tt
  absent key k (m ∷ ms) (s, ss) h = elim (Bool-cases (lt (key m) k)) [
    | inl t ↦ (ground (arith, alike (key m) k), absent key k ms ss (λ y e. h y (rw t e)))
    | inr t ↦
        let miss : same (key m) k ≡ false = h m (rw t refl) in
        (miss, absent_from key k m ms (ground (arith, alike (key m) k)) s)
  ]

  -- In a sorted list, `get_rank` returns the place of a node with the key, and the length of the list
  -- exactly where no node has it.
  pub get_rank-Represents :
      (l : Skiplist K) (ns : List ℕ)
      → Represents l ns
      → l.length < 2 ^ 64
      → Sorted lt l.key ns
      → (k : K)
      → FoundAt (λ m. same (l.key m) k) ns (get_rank lt same l k)
        ⊎ ((get_rank lt same l k ≡ length ns) × All (λ m. same (l.key m) k ≡ false) ns)
  unfolding get_rank
  get_rank-Represents l ns rep small sorted k =
      let pre = smaller lt l.key k ns in
      let post = not_smaller lt l.key k ns in
      let e : pre ++ post ≡ ns = smaller-append lt l.key k ns in
      elim (rank_loop-start lt same l k pre post (rw e rep) small (smaller-All lt l.key k ns)
        (not_smaller-All lt l.key law k ns sorted)) [
          | inl found ↦ inl (rw e at found)
          | inr (miss, next) ↦ inr (miss ∙ rep.counted, absent l.key k ns sorted next)
        ]
