-- ===== src/Algo/Skiplist/InsertLevel.antt =====
-- hj/algo/skiplist.hpp: what `insert` does to the links of one level.
use high_jump.Common.{
  ℕ, suc, ◌+◌, ◌-◌, ◌≡◌, ◌≢◌, refl, sym, ap, ◌∙◌, Bool, true, Bool-cases, inl, inr, List, [], ◌∷◌,
  ◌++◌, All, some, length, arith, if◌then◌else◌,
}
use high_jump.Algo.Skiplist.{Link, Cursor}
use high_jump.Algo.Skiplist.Walk.{link_to, Linked, last_tall}
use high_jump.Algo.Skiplist.Represents.{Distinct, All-append}

-- More nodes passed behind, the same link with a longer span.
pub link_to_up :
    (tall : ℕ → Bool) (k j : ℕ) (ms : List ℕ)
    → link_to tall (k + j) ms
      ≡ record { forward = (link_to tall j ms).forward; span = k + (link_to tall j ms).span }
unfolding link_to
link_to_up tall k j [] = refl
link_to_up tall k j (m ∷ ms) =
    let e : suc (k + j) ≡ k + suc j = omega arith in
    elim (Bool-cases (tall m)) [
      | inl t ↦ rw (t, e) refl
      | inr t ↦ rw (t, e) (link_to_up tall k (suc j) ms)
    ]

pub link_to-suc :
    (tall : ℕ → Bool) (k : ℕ) (ms : List ℕ)
    → link_to tall (suc k) ms
      ≡ record { forward = (link_to tall k ms).forward; span = suc (link_to tall k ms).span }
link_to-suc tall k ms =
    let e : 1 + k ≡ suc k = omega arith in
    let d : 1 + (link_to tall k ms).span ≡ suc (link_to tall k ms).span = omega arith in
    rw (e, d) at (link_to_up tall 1 k ms)

link_to_down :
    (tall : ℕ → Bool) (k : ℕ) (ms : List ℕ)
    → record { forward = (link_to tall k ms).forward; span = (link_to tall k ms).span - k }
      ≡ link_to tall 0 ms
link_to_down tall k ms =
    let z : k + 0 ≡ k = omega arith in
    let up = rw z at (link_to_up tall k 0 ms) in
    let d : k + (link_to tall 0 ms).span - k ≡ (link_to tall 0 ms).span = omega arith in
    rw (up, d) refl

pub Linked-frame :
    (tall : ℕ → Bool) (f g : ℕ → Link) (ms : List ℕ)
    → All (λ m. g m ≡ f m) ms
    → Linked tall f ms
    → Linked tall g ms
Linked-frame tall f g [] same ls = tt
Linked-frame tall f g (m ∷ ms) (same, sames) (l, ls) =
    (λ t. same ∙ l t, Linked-frame tall f g ms sames ls)

pub last_tall_mem :
    (P : ℕ → Type 0) (tall : ℕ → Bool) (c : Cursor) (p : ℕ) (ms : List ℕ)
    → P c.node
    → All P ms
    → P (last_tall tall c p ms).node
unfolding last_tall
last_tall_mem P tall c p [] h hs = h
last_tall_mem P tall c p (m ∷ ms) h (g, gs) = elim (Bool-cases (tall m)) [
  | inl t ↦ rw t (last_tall_mem P tall (record { node = m; rank = suc p }) (suc p) ms g gs)
  | inr t ↦ rw t (last_tall_mem P tall c (suc p) ms h gs)
]

module _ (tall : ℕ → Bool) (f g : ℕ → Link) (x : ℕ) (post : List ℕ) (u : Cursor) (q : ℕ)
    (frame : (m : ℕ) → m ≢ u.node → m ≢ x → g m ≡ f m)
    (at_x : tall x ≡ true
      → g x ≡ record { forward = (f u.node).forward; span = (f u.node).span - (q - u.rank) })
    (at_u : g u.node ≡ (
      if tall x
      then record { forward = some x; span = suc (q - u.rank) }
      else record { forward = (f u.node).forward; span = suc (f u.node).span })) where
  frame-All :
      (ms : List ℕ) → All (λ m. m ≢ u.node) ms → All (λ m. m ≢ x) ms → All (λ m. g m ≡ f m) ms
  frame-All [] a b = tt
  frame-All (m ∷ ms) (a, as') (b, bs) = (frame m a b, frame-All ms as' bs)

  -- The links stand for the nodes with the new one between the two parts.
  pub insert-Linked :
      (pre : List ℕ) (n r k p : ℕ)
      → p ≡ r + k
      → q ≡ p + length pre
      → u ≡ last_tall tall (record { node = n; rank = r }) p pre
      → f n ≡ link_to tall k (pre ++ post)
      → Linked tall f (pre ++ post)
      → Distinct (n ∷ (pre ++ post))
      → All (λ m. m ≢ x) (n ∷ (pre ++ post))
      → (g n ≡ link_to tall k (pre ++ (x ∷ post))) × Linked tall g (pre ++ (x ∷ post))
  unfolding link_to last_tall
  insert-Linked [] n r k p e d un here ls (dn, ds) (nx, nxs) =
      let node : u.node ≡ n = ap (λ (c : Cursor). c.node) un in
      let w : q - u.rank ≡ k = omega (arith, ap (λ (c : Cursor). c.rank) un) in
      let fu : f u.node ≡ link_to tall k post = ap f node ∙ here in
      let rest = Linked-frame tall f g post (frame-All post (rw node dn) nxs) ls in
      elim (Bool-cases (tall x)) [
        | inl t ↦
            let here' : g n ≡ record { forward = some x; span = suc k } =
              sym (ap g node) ∙ at_u ∙ (rw (t, w) refl) in
            let new : g x ≡ link_to tall 0 post =
              at_x t ∙ (rw (fu, w) (link_to_down tall k post)) in
            rw t (here', (λ h. new, rest))
        | inr t ↦
            let here' : g n ≡ link_to tall (suc k) post =
              sym (ap g node) ∙ at_u ∙ (rw (t, fu) (sym (link_to-suc tall k post))) in
            rw t (here', (λ h. cc, rest))
      ]
  insert-Linked (m ∷ pre) n r k p e d un here (l, ls) ((dm, dn), ds) (nx, nxs) =
      elim (Bool-cases (tall m)) [
        | inl t ↦
            let un' : u ≡ last_tall tall (record { node = m; rank = suc p }) (suc p) pre =
              un ∙ (rw t refl) in
            let other : u.node ≢ n = rw un' (
              last_tall_mem (λ y. y ≢ n) tall (record { node = m; rank = suc p }) (suc p) pre dm
                (All-append (λ y. y ≢ n) pre post dn).0) in
            let (gm, lg) =
              insert-Linked pre m (suc p) 0 (suc p) (omega arith) (omega arith) un' (l t) ls ds
                nxs in
            rw t ((frame n (λ h. other (sym h)) nx ∙ (here ∙ (rw t refl))), (λ h. gm, lg))
        | inr t ↦
            let un' : u ≡ last_tall tall (record { node = n; rank = r }) (suc p) pre =
              un ∙ (rw t refl) in
            let (gn, lg) =
              insert-Linked pre n r (suc k) (suc p) (omega arith) (omega arith) un'
                (here ∙ (rw t refl)) ls (dn, ds.1) (nx, nxs.1) in
            rw t (gn, (λ h. cc, lg))
      ]
