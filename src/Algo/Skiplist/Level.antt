-- ===== src/Algo/Skiplist/Level.antt =====
-- hj/algo/skiplist.hpp: the search from the top level down, where each level starts where the one above stopped.
use high_jump.Common.{
  ℕ, zero, suc, ◌+◌, ◌^◌, ◌<◌, ◌≤◌, ◌≡◌, ◌⊎◌, refl, ◌∙◌, Bool, true, false, Bool-cases, inl, inr,
  List, [], ◌∷◌, ◌++◌, All, length, arith, ◌==◌,
}
use high_jump.Algo.Skiplist.{Link, Cursor, advance, descend, start}
use high_jump.Algo.Skiplist.Walk.{link_to, Linked, last_tall, GoesOn, Stops, advance-last_tall}

pub last_tall_none :
    (tall : ℕ → Bool) (c : Cursor) (p : ℕ) (ms : List ℕ)
    → All (λ m. tall m ≡ false) ms
    → last_tall tall c p ms ≡ c
unfolding last_tall
last_tall_none tall c p [] h = refl
last_tall_none tall c p (m ∷ ms) (h, hs) = rw h (last_tall_none tall c (suc p) ms hs)

-- Either no node has the level, or what stands before them does not matter.
last_tall-cases :
    (tall : ℕ → Bool) (ms : List ℕ) (p : ℕ)
    → (All (λ m. tall m ≡ false) ms)
      ⊎ ((c d : Cursor) → last_tall tall c p ms ≡ last_tall tall d p ms)
unfolding last_tall
last_tall-cases tall [] p = inl tt
last_tall-cases tall (m ∷ ms) p = elim (Bool-cases (tall m)) [
  | inl t ↦ inr (λ c d. rw t refl)
  | inr t ↦ elim (last_tall-cases tall ms (suc p)) [
    | inl none_tall ↦ inl (t, none_tall)
    | inr any ↦ inr (λ c d. rw t (any c d))
  ]
]

module _ (upper tall : ℕ → Bool) (go : ℕ → ℕ → Bool) (f : ℕ → Link) (post : List ℕ)
    (lower : (m : ℕ) → upper m ≡ true → tall m ≡ true) where
  -- The search of a level from where the level above it stopped.
  pub advance-from_above :
      (pre : List ℕ) (fuel n r k p : ℕ)
      → p ≡ r + k
      → f n ≡ link_to tall k (pre ++ post)
      → Linked tall f (pre ++ post)
      → GoesOn go p pre
      → Stops go (p + length pre) post
      → length pre ≤ fuel
      → p + length pre + length post < 2 ^ 64
      → advance go f fuel (last_tall upper (record { node = n; rank = r }) p pre)
        ≡ last_tall tall (record { node = n; rank = r }) p pre
  unfolding link_to last_tall
  advance-from_above [] fuel n r k p e here ls g s h b =
      advance-last_tall tall go f post [] fuel n r k p e here ls g s h b
  advance-from_above (m ∷ pre) fuel n r k p e here (l, ls) (g, gs) s h b =
      let q : p + suc (length pre) ≡ suc p + length pre = omega arith in
      let s' : Stops go (suc p + length pre) post = rw (← q) s in
      elim (Bool-cases (upper m)) [
        | inl t ↦
            rw (t, lower m t)
              (advance-from_above pre fuel m (suc p) 0 (suc p) (omega arith) (l (lower m t)) ls gs
                s' (omega arith) (omega arith))
        | inr t ↦ elim (last_tall-cases upper pre (suc p)) [
          | inl nowhere ↦
              rw (t, last_tall_none upper (record { node = n; rank = r }) (suc p) pre nowhere)
                (advance-last_tall tall go f post (m ∷ pre) fuel n r k p e here (l, ls) (g, gs) s h
                  b)
          | inr any ↦ elim (Bool-cases (tall m)) [
            | inl u ↦
                rw (t, u, any (record { node = n; rank = r }) (record { node = m; rank = suc p }))
                  (advance-from_above pre fuel m (suc p) 0 (suc p) (omega arith) (l u) ls gs s'
                    (omega arith) (omega arith))
            | inr u ↦
                rw (t, u)
                  (advance-from_above pre fuel n r (suc k) (suc p) (omega arith)
                    (here ∙ (rw u refl)) ls gs s' (omega arith) (omega arith))
          ]
        ]
      ]

module _ (tall : ℕ → ℕ → Bool) (go : ℕ → ℕ → Bool) (link : ℕ → ℕ → Link) (pre post : List ℕ)
    (fuel : ℕ) (lower : (i m : ℕ) → tall (suc i) m ≡ true → tall i m ≡ true)
    (goes : GoesOn go 0 pre) (stops : Stops go (length pre) post) (enough : length pre ≤ fuel)
    (small : length pre + length post < 2 ^ 64) where
  -- Each level of the search stops at the last node of the first part that has it.
  pub descend-last_tall :
      (n j : ℕ)
      → ((i : ℕ)
          → i < n
          → (link 0 i ≡ link_to (tall i) 0 (pre ++ post))
            × Linked (tall i) (λ m. link m i) (pre ++ post))
      → j < n
      → descend go link fuel n (last_tall (tall n) start 0 pre) j ≡ last_tall (tall j) start 0 pre
  unfolding descend
  descend-last_tall zero j on h = absurd (omega arith)
  descend-last_tall (suc i) j on h =
      let z : 0 + length pre ≡ length pre = omega arith in
      let here =
        advance-from_above (tall (suc i)) (tall i) go (λ m. link m i) post (lower i) pre fuel 0 0 0
          0 refl (on i (omega arith)).0 (on i (omega arith)).1 goes (rw z stops) enough
          (omega arith) in
      elim (Bool-cases (j == i)) [
        | inl t ↦ let e : j ≡ i = ground arith in rw (t, e) here
        | inr t ↦ rw (t, here) (descend-last_tall i j (λ i' b. on i' (omega arith)) (ground arith))
      ]

module _ (tall : ℕ → Bool) (f : ℕ → Link) (post : List ℕ) where
  -- The link of the node that such a search stops at.
  pub link-last_tall :
      (pre : List ℕ) (n r k p : ℕ)
      → p ≡ r + k
      → f n ≡ link_to tall k (pre ++ post)
      → Linked tall f (pre ++ post)
      → (j : ℕ) × (p + length pre ≡ (last_tall tall (record { node = n; rank = r }) p pre).rank + j)
        × (f (last_tall tall (record { node = n; rank = r }) p pre).node ≡ link_to tall j post)
  unfolding link_to last_tall
  link-last_tall [] n r k p e here ls = (k, omega arith, here)
  link-last_tall (m ∷ pre) n r k p e here (l, ls) = elim (Bool-cases (tall m)) [
    | inl t ↦
        let (j, d, g) = link-last_tall pre m (suc p) 0 (suc p) (omega arith) (l t) ls in
        rw t (j, omega arith, g)
    | inr t ↦
        let (j, d, g) =
          link-last_tall pre n r (suc k) (suc p) (omega arith) (here ∙ (rw t refl)) ls in
        rw t (j, omega arith, g)
  ]
