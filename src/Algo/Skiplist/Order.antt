-- ===== src/Algo/Skiplist/Order.antt =====
-- hj/algo/skiplist.hpp: the order of the keys, and where a key stands among sorted nodes.
use high_jump.Common.{
  ℕ, ◌≡◌, refl, ap, Bool, true, false, Bool-cases, inl, inr, List, [], ◌∷◌, ◌++◌, All, arith,
  if◌then◌else◌,
}

-- What a search needs of the order: the laws of a strict weak order.
pub record StrictWeak {ℓ} {K : Type ℓ} (lt : K → K → Bool) : Type ℓ where
  pub asym : (a b : K) → lt a b ≡ true → lt b a ≡ false
  pub between : (a b c : K) → lt a c ≡ true → lt a b ≡ false → lt b c ≡ true

module _ {ℓ} {K : Type ℓ} (lt : K → K → Bool) (key : ℕ → K) where
  abbrev pub Sorted : List ℕ → Type 0
  Sorted [] = Unit
  Sorted (m ∷ ms) = All (λ y. lt (key y) (key m) ≡ false) ms × Sorted ms

  -- The nodes before a key, and those from it on.
  unfoldable pub smaller : K → List ℕ → List ℕ
  smaller k [] = []
  smaller k (m ∷ ms) = if lt (key m) k then m ∷ smaller k ms else []

  unfoldable pub not_smaller : K → List ℕ → List ℕ
  not_smaller k [] = []
  not_smaller k (m ∷ ms) = if lt (key m) k then not_smaller k ms else m ∷ ms

  pub smaller-append : (k : K) (ns : List ℕ) → smaller k ns ++ not_smaller k ns ≡ ns
  unfolding smaller not_smaller
  smaller-append k [] = refl
  smaller-append k (m ∷ ms) = elim (Bool-cases (lt (key m) k)) [
    | inl t ↦ rw t (ap (◌∷◌ m) (smaller-append k ms))
    | inr t ↦ rw t refl
  ]

  pub smaller-All : (k : K) (ns : List ℕ) → All (λ m. lt (key m) k ≡ true) (smaller k ns)
  unfolding smaller
  smaller-All k [] = tt
  smaller-All k (m ∷ ms) = elim (Bool-cases (lt (key m) k)) [
    | inl t ↦ rw t (t, smaller-All k ms)
    | inr t ↦ rw t tt
  ]

  module _ (law : StrictWeak lt) where
    later :
        (k : K) (m : ℕ) (ms : List ℕ)
        → lt (key m) k ≡ false
        → All (λ y. lt (key y) (key m) ≡ false) ms
        → All (λ y. lt (key y) k ≡ false) ms
    later k m [] h s = tt
    later k m (y ∷ ms) h (s, ss) =
        (ground (arith, law.between (key y) (key m) k), later k m ms h ss)

    pub not_smaller-All :
        (k : K) (ns : List ℕ) → Sorted ns → All (λ m. lt (key m) k ≡ false) (not_smaller k ns)
    unfolding not_smaller
    not_smaller-All k [] s = tt
    not_smaller-All k (m ∷ ms) (s, ss) = elim (Bool-cases (lt (key m) k)) [
      | inl t ↦ rw t (not_smaller-All k ms ss)
      | inr t ↦ rw t (t, later k m ms t s)
    ]

    -- The place of a new node, `x`, among sorted ones.
    Sorted-between :
        (x : ℕ) (pre post : List ℕ)
        → All (λ m. lt (key m) (key x) ≡ true) pre
        → All (λ m. lt (key m) (key x) ≡ false) post
        → Sorted (pre ++ post)
        → Sorted (pre ++ (x ∷ post))
    Sorted-between x [] post h g s = (g, s)
    Sorted-between x (m ∷ pre) post (h, hs) g (s, ss) =
        (All_between x m pre post (law.asym (key m) (key x) h) s, Sorted-between x pre post hs g ss)
      where
        All_between :
            (x m : ℕ) (pre post : List ℕ)
            → lt (key x) (key m) ≡ false
            → All (λ y. lt (key y) (key m) ≡ false) (pre ++ post)
            → All (λ y. lt (key y) (key m) ≡ false) (pre ++ (x ∷ post))
        All_between x m [] post h s = (h, s)
        All_between x m (y ∷ pre) post h (s, ss) = (s, All_between x m pre post h ss)

-- The nodes in order with a new one before the first whose key is not smaller.
unfoldable pub put {ℓ} : {K : Type ℓ} → (K → K → Bool) → (ℕ → K) → K → ℕ → List ℕ → List ℕ
unfolding smaller not_smaller
put lt key k x ns = smaller lt key k ns ++ (x ∷ not_smaller lt key k ns)

module _ {ℓ} {K : Type ℓ} (lt : K → K → Bool) (key key' : ℕ → K) where
  All-key :
      (m : K) (ms : List ℕ)
      → All (λ y. key' y ≡ key y) ms
      → All (λ y. lt (key y) m ≡ false) ms
      → All (λ y. lt (key' y) m ≡ false) ms
  All-key m [] e s = tt
  All-key m (y ∷ ms) (e, es) (s, ss) = (rw e s, All-key m ms es ss)

  Sorted-same : (ms : List ℕ) → All (λ y. key' y ≡ key y) ms → Sorted lt key ms → Sorted lt key' ms
  Sorted-same [] e s = tt
  Sorted-same (m ∷ ms) (e, es) (s, ss) = (rw e (All-key (key m) ms es s), Sorted-same ms es ss)

  smaller_same :
      (k : K) (ms : List ℕ)
      → All (λ y. key' y ≡ key y) ms
      → smaller lt key' k ms ≡ smaller lt key k ms
  unfolding smaller
  smaller_same k [] e = refl
  smaller_same k (m ∷ ms) (e, es) = rw (e, smaller_same k ms es) refl

  not_smaller_same :
      (k : K) (ms : List ℕ)
      → All (λ y. key' y ≡ key y) ms
      → not_smaller lt key' k ms ≡ not_smaller lt key k ms
  unfolding not_smaller
  not_smaller_same k [] e = refl
  not_smaller_same k (m ∷ ms) (e, es) = rw (e, not_smaller_same k ms es) refl

  pub put-Sorted :
      StrictWeak lt
      → (x : ℕ) (ns : List ℕ) → All (λ y. key' y ≡ key y) ns
      → Sorted lt key ns
      → Sorted lt key' (put lt key (key' x) x ns)
  unfolding put
  put-Sorted law x ns e s =
      let s' = Sorted-same ns e s in
      let r =
        Sorted-between lt key' law x (smaller lt key' (key' x) ns) (not_smaller lt key' (key' x) ns)
          (smaller-All lt key' (key' x) ns) (not_smaller-All lt key' law (key' x) ns s')
          (rw (smaller-append lt key' (key' x) ns) s') in
      rw (smaller_same (key' x) ns e, not_smaller_same (key' x) ns e) at r
