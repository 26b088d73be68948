-- ===== src/Algo/Skiplist/Represents.antt =====
-- hj/algo/skiplist.hpp: what it takes for the links of a list to stand for its nodes in order.
use high_jump.Common.{
  ℕ, suc, ◌+◌, ◌^◌, ◌<◌, ◌≤◌, ◌≡◌, ◌≢◌, ◌∙◌, Bool, true, false, List, [], ◌∷◌, ◌++◌, All, Option,
  none, some, length, length-append, arith, ltb,
}
use high_jump.Algo.Skiplist.{Skiplist, max_level, descend, start, find_path}
use high_jump.Algo.Skiplist.Walk.{link_to, Linked, last_tall, GoesOn, Stops}
use high_jump.Algo.Skiplist.Level.{last_tall_none, descend-last_tall}

abbrev pub Distinct : List ℕ → Type 0
Distinct [] = Unit
Distinct (m ∷ ms) = All (λ y. y ≢ m) ms × Distinct ms

-- Each `backward` names the node before, and that of the first none.
abbrev pub BackwardFrom : (ℕ → Option ℕ) → Option ℕ → List ℕ → Type 0
BackwardFrom back prev [] = Unit
BackwardFrom back prev (m ∷ ms) = (back m ≡ prev) × BackwardFrom back (some m) ms

abbrev pub last_of : Option ℕ → List ℕ → Option ℕ
last_of prev [] = prev
last_of prev (m ∷ ms) = last_of (some m) ms

pub All-map {ℓ κ} :
    {P : ℕ → Type ℓ} {Q : ℕ → Type κ} (ms : List ℕ) → ((m : ℕ) → P m → Q m) → All P ms → All Q ms
All-map [] f h = tt
All-map (m ∷ ms) f (h, hs) = (f m h, All-map ms f hs)

pub All-append : (P : ℕ → Type 0) (xs ys : List ℕ) → All P (xs ++ ys) → All P xs × All P ys
All-append P [] ys h = (tt, h)
All-append P (x ∷ xs) ys (h, hs) = let r = All-append P xs ys hs in ((h, r.0), r.1)

pub GoesOn-of_All :
    (q : ℕ → Bool) (p : ℕ) (ms : List ℕ) → All (λ m. q m ≡ true) ms → GoesOn (λ y r. q y) p ms
GoesOn-of_All q p [] h = tt
GoesOn-of_All q p (m ∷ ms) (h, hs) = (h, GoesOn-of_All q (suc p) ms hs)

pub Stops-of_All :
    (q : ℕ → Bool) (p : ℕ) (ms : List ℕ) → All (λ m. q m ≡ false) ms → Stops (λ y r. q y) p ms
Stops-of_All q p [] h = tt
Stops-of_All q p (m ∷ ms) (h, hs) = (h, Stops-of_All q (suc p) ms hs)

module _ {ℓ} {K : Type ℓ} where
  abbrev pub tall_at : Skiplist K → ℕ → ℕ → Bool
  tall_at l i m = ltb i (l.height m)

  -- The list `l` holds the nodes `ns` in this order. On each level in use, the header and every node that
  -- has the level link to the next that has it, and the span is how many nodes further it is, or to the
  -- end of the list where there is none.
  pub record Represents (l : Skiplist K) (ns : List ℕ) : Type 0 where
    pub header : (i : ℕ) → i < l.level → l.link 0 i ≡ link_to (tall_at l i) 0 ns
    pub nodes : (i : ℕ) → i < l.level → Linked (tall_at l i) (λ m. l.link m i) ns
    pub above : (i : ℕ) → l.level ≤ i → (l.link 0 i).forward ≡ none
    pub heights : All (λ m. (0 < l.height m) × (l.height m ≤ l.level)) ns
    pub fresh : All (λ m. (0 < m) × (m < l.next_node)) ns
    pub distinct : Distinct ns
    pub counted : l.length ≡ length ns
    pub back : BackwardFrom l.backward none ns
    pub last : l.tail ≡ last_of none ns
    pub in_use : 0 < l.level
    pub limited : l.level ≤ max_level
    pub started : 0 < l.next_node

  module _ (l : Skiplist K) (pre post : List ℕ) (rep : Represents l (pre ++ post))
      (small : l.length < 2 ^ 64) where
    -- A search with any test that holds of a first part of the nodes and fails of the others.
    pub search-last_tall :
        (go : ℕ → ℕ → Bool) (j : ℕ)
        → GoesOn go 0 pre
        → Stops go (length pre) post
        → j < l.level
        → descend go l.link l.length l.level start j ≡ last_tall (tall_at l j) start 0 pre
    search-last_tall go j g s h =
        let c : l.length ≡ length pre + length post = rep.counted ∙ length-append pre post in
        let top : last_tall (tall_at l l.level) start 0 pre ≡ start =
          last_tall_none (tall_at l l.level) start 0 pre (
            All-map pre (λ m b. ground arith)
              (All-append (λ m. (0 < l.height m) × (l.height m ≤ l.level)) pre post
                rep.heights).0) in
        let r =
          descend-last_tall (tall_at l) go l.link pre post l.length (λ i m t. ground arith) g s
            (omega arith) (omega arith) l.level j (λ i b. (rep.header i b, rep.nodes i b)) h in
        rw top at r

    pub find_path-last_tall :
        (lt : K → K → Bool) (k : K) (j : ℕ)
        → All (λ m. lt (l.key m) k ≡ true) pre
        → All (λ m. lt (l.key m) k ≡ false) post
        → j < l.level
        → find_path lt l k j ≡ last_tall (tall_at l j) start 0 pre
    unfolding find_path
    find_path-last_tall lt k j g s h =
        search-last_tall (λ y r. lt (l.key y) k) j (GoesOn-of_All (λ m. lt (l.key m) k) 0 pre g)
          (Stops-of_All (λ m. lt (l.key m) k) (length pre) post s) h
