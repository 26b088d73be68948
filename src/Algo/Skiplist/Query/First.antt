-- ===== src/Algo/Skiplist/Query/First.antt =====
-- hj/algo/skiplist.hpp: `first_in_range`.
use high_jump.Common.{
  ℕ, ◌^◌, ◌<◌, ◌≡◌, refl, sym, ap, ◌∙◌, Bool, true, false, not, Bool-cases, inl, inr, List, [], ◌∷◌,
  ◌++◌, All, Option, none, some, length, arith, if◌then◌else◌, ◌&&◌, get_elem?,
}
use high_jump.Algo.Skiplist.{Link, Skiplist, descend, start}
use high_jump.Algo.Skiplist.Order.{
  StrictWeak, Sorted, smaller, not_smaller, smaller-append, smaller-All, not_smaller-All,
}
use high_jump.Algo.Skiplist.Represents.{
  Represents, tall_at, All-map, GoesOn-of_All, Stops-of_All, last_of,
}
use high_jump.Algo.Skiplist.Rank.{forward-link_to, forward-search}
use high_jump.Algo.Skiplist.Query.{is_in_range, first_in_range}

-- The first node that is as wanted.
unfoldable pub first_where : (ℕ → Bool) → List ℕ → Option ℕ
first_where q [] = none
first_where q (m ∷ ms) = if q m then some m else first_where q ms

first_where-none :
    (q : ℕ → Bool) (ms : List ℕ) → All (λ m. q m ≡ false) ms → first_where q ms ≡ none
unfolding first_where
first_where-none q [] h = refl
first_where-none q (m ∷ ms) (h, hs) = rw h (first_where-none q ms hs)

first_where_skip :
    (q : ℕ → Bool) (pre post : List ℕ)
    → All (λ m. q m ≡ false) pre
    → first_where q (pre ++ post) ≡ first_where q post
unfolding first_where
first_where_skip q [] post h = refl
first_where_skip q (m ∷ pre) post (h, hs) = rw h (first_where_skip q pre post hs)

All-each : {P : ℕ → Type 0} → ((m : ℕ) → P m) → (ms : List ℕ) → All P ms
All-each f [] = tt
All-each f (m ∷ ms) = (f m, All-each f ms)

last_node : ℕ → List ℕ → ℕ
last_node m [] = m
last_node m (y ∷ ys) = last_node y ys

last_of-last_node : (m : ℕ) (ms : List ℕ) → last_of (some m) ms ≡ some (last_node m ms)
unfolding last_node
last_of-last_node m [] = refl
last_of-last_node m (y ∷ ys) = last_of-last_node y ys

module _ {ℓ κ} {K : Type ℓ} {S : Type κ} (score : K → S) (score_lt : S → S → Bool)
    (law : StrictWeak score_lt) (l : Skiplist K) (min_score max_score : S) where
  abbrev score_of : ℕ → S
  score_of m = score (l.key m)

  -- The scores that are asked for.
  abbrev pub wanted : ℕ → Bool
  wanted m =
      not (score_lt (score (l.key m)) min_score) && not (score_lt max_score (score (l.key m)))

  above_none :
      (y : ℕ) (ms : List ℕ)
      → score_lt max_score (score_of y) ≡ true
      → All (λ z. score_lt (score_of z) (score_of y) ≡ false) ms
      → All (λ m. wanted m ≡ false) ms
  above_none y [] h s = tt
  above_none y (z ∷ ms) h (s, ss) =
      (ground (arith, law.between max_score (score_of z) (score_of y)), above_none y ms h ss)

  below-All :
      (m : ℕ) (ms : List ℕ)
      → score_lt (score_of (last_node m ms)) min_score ≡ true
      → Sorted score_lt score_of (m ∷ ms)
      → All (λ z. score_lt (score_of z) min_score ≡ true) (m ∷ ms)
  unfolding last_node
  below-All m [] h s = (h, tt)
  below-All m (y ∷ ys) h ((s, ss), rest) =
      let r = below-All y ys h rest in (law.between (score_of y) (score_of m) min_score r.0 s, r)

  crossed : (m : ℕ) → score_lt max_score min_score ≡ true → wanted m ≡ false
  crossed m h = ground (arith, law.between max_score (score_of m) min_score)

  is_in_range-cons :
      {x y : ℕ}
      → l.tail ≡ some x
      → (l.link 0 0).forward ≡ some y
      → is_in_range score score_lt l min_score max_score ≡ (
          not (score_lt max_score min_score)
          && not (score_lt (score_of x) min_score)
          && not (score_lt max_score (score_of y)))
  unfolding is_in_range
  is_in_range-cons e f = rw (e, f, is_in_range) refl

  -- Where the guard of the range queries fails, no node is as wanted.
  pub is_in_range-none :
      (ns : List ℕ)
      → Sorted score_lt score_of ns
      → l.tail ≡ last_of none ns
      → (l.link 0 0).forward ≡ get_elem? ns 0
      → is_in_range score score_lt l min_score max_score ≡ false
      → All (λ m. wanted m ≡ false) ns
  is_in_range-none [] s t f h = tt
  is_in_range-none (m ∷ ms) s t f h =
      let g = is_in_range-cons (t ∙ last_of-last_node m ms) f in
      elim (Bool-cases (score_lt max_score min_score)) [
        | inl a ↦ All-each (λ y. crossed y a) (m ∷ ms)
        | inr a ↦ elim (Bool-cases (score_lt (score_of (last_node m ms)) min_score)) [
          | inl b ↦ All-map (m ∷ ms) (λ y e. ground arith) (below-All m ms b s)
          | inr b ↦
              let c : score_lt max_score (score_of m) ≡ true = ground arith in
              (ground arith, above_none m ms c s.0)
        ]
      ]

  first_in_range-none :
      is_in_range score score_lt l min_score max_score ≡ false
      → first_in_range score score_lt l min_score max_score ≡ none
  unfolding first_in_range
  first_in_range-none e = rw (e, first_in_range) refl

  first_in_range-found :
      {o : Option ℕ}
      → is_in_range score score_lt l min_score max_score ≡ true
      → (l.link
          (descend
            (λ y r. score_lt (score (l.key y)) min_score)
            l.link
            l.length
            l.level
            start
            0).node
          0).forward
        ≡ o
      → first_in_range score score_lt l min_score max_score ≡ elim o as (λ o. Option ℕ) [
        | none ↦ none
        | some y ↦ if score_lt max_score (score (l.key y)) then none else some y
      ]
  unfolding first_in_range
  first_in_range-found e f = rw (e, f, first_in_range) refl

  found-first_where :
      (pre post : List ℕ)
      → Sorted score_lt score_of post
      → All (λ m. score_lt (score_of m) min_score ≡ true) pre
      → All (λ m. score_lt (score_of m) min_score ≡ false) post
      → (elim (get_elem? post 0) as (λ o. Option ℕ) [
        | none ↦ none
        | some y ↦ if score_lt max_score (score (l.key y)) then none else some y
      ])
        ≡ first_where wanted (pre ++ post)
  unfolding first_where
  found-first_where pre [] s goes stops =
      sym (first_where_skip wanted pre [] (All-map pre (λ m e. ground arith) goes))
  found-first_where pre (y ∷ ys) (s, ss) goes (stop, stops) =
      let skip = first_where_skip wanted pre (y ∷ ys) (All-map pre (λ m e. ground arith) goes) in
      elim (Bool-cases (score_lt max_score (score_of y))) [
        | inl t ↦ rw (skip, t, stop) (sym (first_where-none wanted ys (above_none y ys t s)))
        | inr t ↦ rw (skip, t, stop) refl
      ]

  Sorted-later :
      (pre post : List ℕ) → Sorted score_lt score_of (pre ++ post) → Sorted score_lt score_of post
  Sorted-later [] post s = s
  Sorted-later (m ∷ pre) post (s, ss) = Sorted-later pre post ss

  first_in_range-split :
      (pre post : List ℕ)
      → Represents l (pre ++ post)
      → Sorted score_lt score_of (pre ++ post)
      → l.length < 2 ^ 64
      → All (λ m. score_lt (score_of m) min_score ≡ true) pre
      → All (λ m. score_lt (score_of m) min_score ≡ false) post
      → first_in_range score score_lt l min_score max_score ≡ first_where wanted (pre ++ post)
  first_in_range-split pre post rep sorted small goes stops =
      let tall : All (λ m. tall_at l 0 m ≡ true) (pre ++ post) =
        All-map (pre ++ post) (λ m b. ground arith) rep.heights in
      let first : (l.link 0 0).forward ≡ get_elem? (pre ++ post) 0 =
        ap (λ (c : Link). c.forward) (rep.header 0 rep.in_use)
        ∙ forward-link_to (tall_at l 0) 0 (pre ++ post) tall in
      let next =
        forward-search l pre post rep small (λ y r. score_lt (score_of y) min_score)
          (GoesOn-of_All (λ m. score_lt (score_of m) min_score) 0 pre goes)
          (Stops-of_All (λ m. score_lt (score_of m) min_score) (length pre) post stops) in
      elim (Bool-cases (is_in_range score score_lt l min_score max_score)) [
        | inl t ↦
            first_in_range-found t next
            ∙ found-first_where pre post (Sorted-later pre post sorted) goes stops
        | inr t ↦
            first_in_range-none t
            ∙ sym (
                first_where-none wanted (pre ++ post)
                  (is_in_range-none (pre ++ post) sorted rep.last first t))
      ]

  -- In a list sorted by the scores, `first_in_range` returns the first node whose score is in the range,
  -- and the null pointer exactly where there is none.
  pub first_in_range-first_where :
      (ns : List ℕ)
      → Represents l ns
      → Sorted score_lt score_of ns
      → l.length < 2 ^ 64
      → first_in_range score score_lt l min_score max_score ≡ first_where wanted ns
  first_in_range-first_where ns rep sorted small =
      let e = smaller-append score_lt score_of min_score ns in
      rw e at (
        first_in_range-split (smaller score_lt score_of min_score ns)
          (not_smaller score_lt score_of min_score ns) (rw e rep) (rw e sorted) small
          (smaller-All score_lt score_of min_score ns)
          (not_smaller-All score_lt score_of law min_score ns sorted))
