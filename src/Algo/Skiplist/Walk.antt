-- ===== src/Algo/Skiplist/Walk.antt =====
-- hj/algo/skiplist.hpp: what the links of one level should be, and where a search along them stops.
use high_jump.Common.{
  ℕ, zero, suc, ◌+◌, ◌^◌, ◌<◌, ◌≤◌, ◌≡◌, refl, ◌∙◌, Bool, true, false, Bool-cases, inl, inr, Option,
  none, some, List, [], ◌∷◌, ◌++◌, length, if◌then◌else◌, arith,
}
use high_jump.Algo.Skiplist.{add_long, Link, Cursor, advance}

-- The link of a node with `k` nodes passed behind it, for the nodes that follow those: to the first of
-- them that has the level, `tall`, and to the end if there is none.
unfoldable pub link_to : (ℕ → Bool) → ℕ → List ℕ → Link
link_to tall k [] = record { forward = none; span = k }
link_to tall k (m ∷ ms) =
    let later = link_to tall (suc k) ms in
    if tall m then record { forward = some m; span = suc k } else later

-- The links of the nodes that have the level.
abbrev pub Linked : (ℕ → Bool) → (ℕ → Link) → List ℕ → Type 0
Linked tall f [] = Unit
Linked tall f (m ∷ ms) = (tall m ≡ true → f m ≡ link_to tall 0 ms) × Linked tall f ms

-- The last of some nodes that has the level, with its rank; `k` nodes stand before them.
unfoldable pub last_tall : (ℕ → Bool) → Cursor → ℕ → List ℕ → Cursor
last_tall tall c k [] = c
last_tall tall c k (m ∷ ms) =
    let here = last_tall tall (record { node = m; rank = suc k }) (suc k) ms in
    let skip = last_tall tall c (suc k) ms in if tall m then here else skip

-- A test that holds of nodes at their ranks, and one that fails.
abbrev pub GoesOn : (ℕ → ℕ → Bool) → ℕ → List ℕ → Type 0
GoesOn go k [] = Unit
GoesOn go k (m ∷ ms) = (go m (suc k) ≡ true) × GoesOn go (suc k) ms

abbrev pub Stops : (ℕ → ℕ → Bool) → ℕ → List ℕ → Type 0
Stops go k [] = Unit
Stops go k (m ∷ ms) = (go m (suc k) ≡ false) × Stops go (suc k) ms

abbrev pub StopsAt : (ℕ → ℕ → Bool) → ℕ → Link → Type 0
StopsAt go r link = elim link.forward as (λ o. Type 0) [
  | none ↦ Unit
  | some y ↦ go y (add_long r link.span) ≡ false
]

pub add_long-below : (a b : ℕ) → a + b < 2 ^ 64 → add_long a b ≡ a + b
unfolding add_long
add_long-below a b h = omega arith

pub link_to-StopsAt :
    (tall : ℕ → Bool) (go : ℕ → ℕ → Bool) (r k p : ℕ) (post : List ℕ)
    → p ≡ r + k
    → Stops go p post
    → p + length post < 2 ^ 64
    → StopsAt go r (link_to tall k post)
unfolding link_to
link_to-StopsAt tall go r k p [] e s h = tt
link_to-StopsAt tall go r k p (m ∷ ms) e (stop, stops) h = elim (Bool-cases (tall m)) [
  | inl t ↦
      let a : add_long r (suc k) ≡ suc p = add_long-below r (suc k) (omega arith) ∙ (omega arith) in
      rw (t, a) stop
  | inr t ↦ rw t (link_to-StopsAt tall go r (suc k) (suc p) ms (omega arith) stops (omega arith))
]

module _ (go : ℕ → ℕ → Bool) (f : ℕ → Link) where
  stop_none : (fuel : ℕ) (c : Cursor) → (f c.node).forward ≡ none → advance go f fuel c ≡ c
  unfolding advance
  stop_none zero c e = refl
  stop_none (suc fuel) c e = ground arith

  stop_some :
      (fuel : ℕ) (c : Cursor) {y : ℕ}
      → (f c.node).forward ≡ some y
      → go y (add_long c.rank (f c.node).span) ≡ false
      → advance go f fuel c ≡ c
  unfolding advance
  stop_some zero c e s = refl
  stop_some (suc fuel) c e s = ground arith

  step_on :
      (fuel n r : ℕ) {y w : ℕ}
      → f n ≡ record { forward = some y; span = w }
      → go y (add_long r w) ≡ true
      → advance go f (suc fuel) (record { node = n; rank = r })
        ≡ advance go f fuel (record { node = y; rank = add_long r w })
  unfolding advance
  step_on fuel n r e g = ground arith

  pub stop_here : (fuel : ℕ) (c : Cursor) → StopsAt go c.rank (f c.node) → advance go f fuel c ≡ c
  stop_here fuel c s = stop_here_by fuel c (f c.node).forward refl s
    where
      stop_here_by :
          (fuel : ℕ) (c : Cursor) (o : Option ℕ)
          → (f c.node).forward ≡ o
          → (elim o as (λ o. Type 0) [
            | none ↦ Unit
            | some y ↦ go y (add_long c.rank (f c.node).span) ≡ false
          ])
          → advance go f fuel c ≡ c
      stop_here_by fuel c none e s = stop_none fuel c e
      stop_here_by fuel c (some y) e s = stop_some fuel c e s

module _ (tall : ℕ → Bool) (go : ℕ → ℕ → Bool) (f : ℕ → Link) (post : List ℕ) where
  -- A search along one level stops at the last node of the first part that has the level.
  pub advance-last_tall :
      (pre : List ℕ) (fuel n r k p : ℕ)
      → p ≡ r + k
      → f n ≡ link_to tall k (pre ++ post)
      → Linked tall f (pre ++ post)
      → GoesOn go p pre
      → Stops go (p + length pre) post
      → length pre ≤ fuel
      → p + length pre + length post < 2 ^ 64
      → advance go f fuel (record { node = n; rank = r })
        ≡ last_tall tall (record { node = n; rank = r }) p pre
  unfolding link_to last_tall
  advance-last_tall [] fuel n r k p e here ls g s h b =
      let q : p + 0 ≡ p = omega arith in
      stop_here go f fuel (record { node = n; rank = r })
        (rw here (link_to-StopsAt tall go r k p post e (rw (← q) s) (omega arith)))
  advance-last_tall (m ∷ pre) zero n r k p e here l g s h b = absurd (omega arith)
  advance-last_tall (m ∷ pre) (suc fuel) n r k p e here (l, ls) (g, gs) s h b =
      let q : p + suc (length pre) ≡ suc p + length pre = omega arith in
      let s' : Stops go (suc p + length pre) post = rw (← q) s in
      elim (Bool-cases (tall m)) [
        | inl t ↦
            let a : add_long r (suc k) ≡ suc p =
              add_long-below r (suc k) (omega arith) ∙ (omega arith) in
            let here' : f n ≡ record { forward = some m; span = suc k } = here ∙ (rw t refl) in
            rw t (
              step_on go f fuel n r here' (rw a g)
              ∙ rw a (
                  advance-last_tall pre fuel m (suc p) 0 (suc p) (omega arith) (l t) ls gs s'
                    (omega arith) (omega arith)))
        | inr t ↦ rw t (
            advance-last_tall pre (suc fuel) n r (suc k) (suc p) (omega arith) (here ∙ (rw t refl))
              ls gs s' (omega arith) (omega arith))
      ]
