-- ===== src/Algo/Skiplist/Delete/Level.antt =====
-- hj/algo/skiplist.hpp: what `_delete_node_internal` does to the links of one level.
use high_jump.Common.{
  ℕ, suc, ◌+◌, ◌-◌, ◌≡◌, ◌≢◌, refl, sym, ap, ◌∙◌, Bool, Bool-cases, inl, inr, List, [], ◌∷◌, ◌++◌,
  some, arith, if◌then◌else◌,
}
use high_jump.Algo.Skiplist.{Link, Cursor}
use high_jump.Algo.Skiplist.Walk.{link_to, Linked, last_tall}
use high_jump.Algo.Skiplist.Represents.{Distinct, All-append, All-map}
use high_jump.Algo.Skiplist.InsertLevel.{link_to_up, link_to-suc, Linked-frame, last_tall_mem}

module _ (tall : ℕ → Bool) (f g : ℕ → Link) (x : ℕ) (post : List ℕ) (u : Cursor)
    (frame : (m : ℕ) → m ≢ u.node → g m ≡ f m)
    (at_u : g u.node ≡ (
      if tall x
      then record { forward = (f x).forward; span = (f u.node).span + (f x).span - 1 }
      else record { forward = (f u.node).forward; span = (f u.node).span - 1 })) where
  without :
      (k : ℕ)
      → record {
        forward = (link_to tall 0 post).forward;
        span = suc k + (link_to tall 0 post).span - 1;
      }
        ≡ link_to tall k post
  without k =
      let z : k + 0 ≡ k = omega arith in
      let d : suc k + (link_to tall 0 post).span - 1 ≡ k + (link_to tall 0 post).span =
        omega arith in
      rw d (sym (rw z at (link_to_up tall k 0 post)))

  shorter :
      (k : ℕ)
      → record {
        forward = (link_to tall (suc k) post).forward;
        span = (link_to tall (suc k) post).span - 1;
      }
        ≡ link_to tall k post
  shorter k =
      let d : suc (link_to tall k post).span - 1 ≡ (link_to tall k post).span = omega arith in
      rw (link_to-suc tall k post, d) refl

  -- The links stand for the nodes without the one between the two parts.
  pub delete-Linked :
      (pre : List ℕ) (n r k p : ℕ)
      → u ≡ last_tall tall (record { node = n; rank = r }) p pre
      → f n ≡ link_to tall k (pre ++ (x ∷ post))
      → Linked tall f (pre ++ (x ∷ post))
      → Distinct (n ∷ (pre ++ (x ∷ post)))
      → (g n ≡ link_to tall k (pre ++ post)) × Linked tall g (pre ++ post)
  unfolding link_to last_tall
  delete-Linked [] n r k p un here (lx, ls) ((xn, dn), ds) =
      let node : u.node ≡ n = ap (λ (c : Cursor). c.node) un in
      let fu : f u.node ≡ link_to tall k (x ∷ post) = ap f node ∙ here in
      let rest = Linked-frame tall f g post (All-map post (λ m a. frame m (rw node a)) dn) ls in
      elim (Bool-cases (tall x)) [
        | inl t ↦
            let fu' : f u.node ≡ record { forward = some x; span = suc k } = fu ∙ (rw t refl) in
            (sym (ap g node) ∙ at_u ∙ (rw (t, fu', lx t) (without k)), rest)
        | inr t ↦
            let fu' : f u.node ≡ link_to tall (suc k) post = fu ∙ (rw t refl) in
            (sym (ap g node) ∙ at_u ∙ (rw (t, fu') (shorter k)), rest)
      ]
  delete-Linked (m ∷ pre) n r k p un here (l, ls) ((mn, dn), ds) = elim (Bool-cases (tall m)) [
    | inl t ↦
        let un' : u ≡ last_tall tall (record { node = m; rank = suc p }) (suc p) pre =
          un ∙ (rw t refl) in
        let other : u.node ≢ n = rw un' (
          last_tall_mem (λ y. y ≢ n) tall (record { node = m; rank = suc p }) (suc p) pre mn
            (All-append (λ y. y ≢ n) pre (x ∷ post) dn).0) in
        let (gm, lg) = delete-Linked pre m (suc p) 0 (suc p) un' (l t) ls ds in
        rw t (frame n (λ h. other (sym h)) ∙ (here ∙ (rw t refl)), ((λ h. gm), lg))
    | inr t ↦
        let un' : u ≡ last_tall tall (record { node = n; rank = r }) (suc p) pre =
          un ∙ (rw t refl) in
        let (gn, lg) =
          delete-Linked pre n r (suc k) (suc p) un' (here ∙ (rw t refl)) ls (dn, ds.1) in
        rw t (gn, ((λ h. cc), lg))
  ]
