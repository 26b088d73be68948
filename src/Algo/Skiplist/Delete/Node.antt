-- ===== src/Algo/Skiplist/Delete/Node.antt =====
-- hj/algo/skiplist.hpp: `delete_node` removes the first node with the key, where there is one.
use high_jump.Common.{
  ℕ, ◌^◌, ◌<◌, ◌≡◌, refl, ap, ◌∙◌, Bool, true, false, not, Bool-cases, inl, inr, List, [], ◌∷◌,
  ◌++◌, All, none, some, length, arith, if◌then◌else◌, get_elem?, ◌&&◌, ◌||◌,
}
use high_jump.Algo.Skiplist.{Cursor, Skiplist, find_path}
use high_jump.Algo.Skiplist.Delete.{delete_internal, delete_path, delete_node}
use high_jump.Algo.Skiplist.Order.{
  StrictWeak, Sorted, smaller, not_smaller, smaller-append, smaller-All, not_smaller-All,
}
use high_jump.Algo.Skiplist.Represents.{All-map, GoesOn-of_All, Stops-of_All, find_path-last_tall}
use high_jump.Algo.Skiplist.Rank.{forward-search}
use high_jump.Algo.Skiplist.Find.{absent}
use high_jump.Algo.Skiplist.Refines.{Holds}
use high_jump.Algo.Skiplist.Delete.Steps.{All-remove}
use high_jump.Algo.Skiplist.Delete.Keeps.{delete_internal-Represents}

-- The first node that is as wanted, and the list without it.
unfoldable pub contains : (ℕ → Bool) → List ℕ → Bool
contains wanted [] = false
contains wanted (m ∷ ms) = wanted m || contains wanted ms

unfoldable pub erase : (ℕ → Bool) → List ℕ → List ℕ
erase wanted [] = []
erase wanted (m ∷ ms) = if wanted m then ms else m ∷ erase wanted ms

module _ (wanted : ℕ → Bool) where
  erase_none :
      (ms : List ℕ)
      → All (λ m. wanted m ≡ false) ms
      → (contains wanted ms ≡ false) × (erase wanted ms ≡ ms)
  unfolding contains erase
  erase_none [] h = (refl, refl)
  erase_none (m ∷ ms) (h, hs) = let r = erase_none ms hs in (rw (h, r.0) refl, rw (h, r.1) refl)

  erase_at :
      (pre : List ℕ) (y : ℕ) (ys : List ℕ)
      → All (λ m. wanted m ≡ false) pre
      → wanted y ≡ true
      → (contains wanted (pre ++ (y ∷ ys)) ≡ true) × (erase wanted (pre ++ (y ∷ ys)) ≡ pre ++ ys)
  unfolding contains erase
  erase_at [] y ys h t = (rw t refl, rw t refl)
  erase_at (m ∷ pre) y ys (h, hs) t =
      let r = erase_at pre y ys hs t in (rw (h, r.0) refl, rw (h, r.1) refl)

pub Sorted-remove {ℓ} :
    {K : Type ℓ} (lt : K → K → Bool) (key : ℕ → K) (pre : List ℕ) (x : ℕ) (post : List ℕ)
    → Sorted lt key (pre ++ (x ∷ post))
    → Sorted lt key (pre ++ post)
Sorted-remove lt key [] x post (s, ss) = ss
Sorted-remove lt key (m ∷ pre) x post (s, ss) =
    (All-remove (λ y. lt (key y) (key m) ≡ false) pre x post s, Sorted-remove lt key pre x post ss)

module _ {ℓ} {K : Type ℓ} (lt same : K → K → Bool) (l : Skiplist K) (k : K) where
  delete_node-none :
      (l.link (delete_path lt l k 0) 0).forward ≡ none → delete_node lt same l k ≡ (false, l)
  unfolding delete_node
  delete_node-none e = rw (e, delete_node) refl

  delete_node-some :
      {y : ℕ}
      → (l.link (delete_path lt l k 0) 0).forward ≡ some y
      → delete_node lt same l k ≡ (
          if same (l.key y) k then (true, delete_internal l (delete_path lt l k) y) else (false, l))
  unfolding delete_node
  delete_node-some e = rw (e, delete_node) refl

  module _ (law : StrictWeak lt) (alike : (a b : K) → same a b ≡ (not (lt a b) && not (lt b a)))
      (small : l.length < 2 ^ 64) where
    abbrev wanted : ℕ → Bool
    wanted m = same (l.key m) k

    delete_node-split :
        (pre post : List ℕ)
        → Holds lt l (pre ++ post)
        → All (λ m. lt (l.key m) k ≡ true) pre
        → All (λ m. lt (l.key m) k ≡ false) post
        → ((y : ℕ)
            → get_elem? post 0 ≡ some y
            → wanted y ≡ false
            → All (λ m. wanted m ≡ false) (pre ++ post))
        → (get_elem? post 0 ≡ none → All (λ m. wanted m ≡ false) (pre ++ post))
        → ((delete_node lt same l k).0 ≡ contains wanted (pre ++ post))
          × Holds lt (delete_node lt same l k).1 (erase wanted (pre ++ post))
    unfolding find_path delete_path delete_internal
    delete_node-split pre [] (rep, sorted) goes stops miss out =
        let next =
          forward-search l pre [] rep small (λ y r. lt (l.key y) k)
            (GoesOn-of_All (λ m. lt (l.key m) k) 0 pre goes)
            (Stops-of_All (λ m. lt (l.key m) k) (length pre) [] stops) in
        let r = erase_none wanted (pre ++ []) (out refl) in
        rw (delete_node-none next, r.0, r.1) (refl, (rep, sorted))
    delete_node-split pre (y ∷ ys) (rep, sorted) goes stops miss out =
        let next =
          forward-search l pre (y ∷ ys) rep small (λ y r. lt (l.key y) k)
            (GoesOn-of_All (λ m. lt (l.key m) k) 0 pre goes)
            (Stops-of_All (λ m. lt (l.key m) k) (length pre) (y ∷ ys) stops) in
        elim (Bool-cases (wanted y)) [
          | inl t ↦
              let r =
                erase_at wanted pre y ys
                  (All-map pre (λ m b. ground (arith, alike (l.key m) k)) goes) t in
              let d : delete_node lt same l k ≡ (true, delete_internal l (delete_path lt l k) y) =
                delete_node-some next ∙ (rw t refl) in
              rw (d, r.0, r.1)
                (
                  refl,
                  (
                    delete_internal-Represents l (delete_path lt l k) pre y ys rep small (λ i h.
                        ap (λ (c : Cursor). c.node)
                          (find_path-last_tall l pre (y ∷ ys) rep small lt k i goes stops h)),
                    Sorted-remove lt l.key pre y ys sorted,
                  ),
                )
          | inr t ↦
              let r = erase_none wanted (pre ++ (y ∷ ys)) (miss y refl t) in
              let d : delete_node lt same l k ≡ (false, l) = delete_node-some next ∙ (rw t refl) in
              rw (d, r.0, r.1) (refl, (rep, sorted))
        ]

    -- `delete_node` says whether there is a node with the key, and removes the first of them, with
    -- links, spans, backward links, tail, length and level in step; otherwise the list stays the same.
    pub delete_node-Holds :
        (ns : List ℕ)
        → Holds lt l ns
        → ((delete_node lt same l k).0 ≡ contains wanted ns)
          × Holds lt (delete_node lt same l k).1 (erase wanted ns)
    delete_node-Holds ns (rep, sorted) =
        let e = smaller-append lt l.key k ns in
        let a = absent lt same law alike l.key k ns sorted in
        rw e at (
          delete_node-split (smaller lt l.key k ns) (not_smaller lt l.key k ns) (rw e (rep, sorted))
            (smaller-All lt l.key k ns) (not_smaller-All lt l.key law k ns sorted)
            (λ y f g. rw e (a (λ z h. ground arith))) (λ f. rw e (a (λ z h. ground arith))))
