-- ===== src/Algo/Skiplist/InsertPath.antt =====
-- hj/algo/skiplist.hpp: the path that `insert` takes, and the links with its new levels.
use mathlib.Core.Path.{fun_ext}
use high_jump.Common.{
  ℕ, suc, ◌+◌, ◌^◌, ◌<◌, ◌≤◌, ◌≡◌, refl, sym, ◌∙◌, Bool, true, false, Bool-cases, inl, inr, List,
  [], ◌∷◌, ◌++◌, All, none, length, arith, ltb, leb, ◌==◌, if◌then◌else◌,
}
use high_jump.Algo.Skiplist.{Link, Cursor, Skiplist, start, find_path, update, raised, new_level}
use high_jump.Algo.Skiplist.Walk.{link_to, Linked, last_tall}
use high_jump.Algo.Skiplist.Level.{last_tall_none}
use high_jump.Algo.Skiplist.Represents.{
  Represents, tall_at, All-append, All-map, find_path-last_tall,
}

pub All-map₂ :
    {P Q R : ℕ → Type 0} (ms : List ℕ)
    → ((m : ℕ) → P m → Q m → R m)
    → All P ms
    → All Q ms
    → All R ms
All-map₂ [] f a b = tt
All-map₂ (m ∷ ms) f (a, as') (b, bs) = (f m a b, All-map₂ ms f as' bs)

module _ (tall tall' : ℕ → Bool) where
  pub last_tall_same :
      (c : Cursor) (p : ℕ) (ms : List ℕ)
      → All (λ m. tall' m ≡ tall m) ms
      → last_tall tall c p ms ≡ last_tall tall' c p ms
  unfolding last_tall
  last_tall_same c p [] h = refl
  last_tall_same c p (m ∷ ms) (h, hs) =
      rw
        (
          h,
          last_tall_same c (suc p) ms hs,
          last_tall_same (record { node = m; rank = suc p }) (suc p) ms hs,
        )
        refl

  pub link_to_same :
      (k : ℕ) (ms : List ℕ)
      → All (λ m. tall' m ≡ tall m) ms
      → link_to tall k ms ≡ link_to tall' k ms
  unfolding link_to
  link_to_same k [] h = refl
  link_to_same k (m ∷ ms) (h, hs) = rw (h, link_to_same (suc k) ms hs) refl

  pub Linked-same :
      (f : ℕ → Link) (ms : List ℕ)
      → All (λ m. tall' m ≡ tall m) ms
      → Linked tall f ms
      → Linked tall' f ms
  Linked-same f [] h ls = tt
  Linked-same f (m ∷ ms) (h, hs) (l, ls) =
      (λ t. l (sym h ∙ t) ∙ link_to_same 0 ms hs, Linked-same f ms hs ls)

module _ (tall : ℕ → Bool) where
  pub link_to-none :
      (k : ℕ) (ms : List ℕ)
      → All (λ m. tall m ≡ false) ms
      → link_to tall k ms ≡ record { forward = none; span = k + length ms }
  unfolding link_to
  link_to-none k [] h = let e : k + 0 ≡ k = omega arith in rw e refl
  link_to-none k (m ∷ ms) (h, hs) =
      let e : k + suc (length ms) ≡ suc k + length ms = omega arith in
      rw (h, e) (link_to-none (suc k) ms hs)

  pub Linked-none : (f : ℕ → Link) (ms : List ℕ) → All (λ m. tall m ≡ false) ms → Linked tall f ms
  Linked-none f [] h = tt
  Linked-none f (m ∷ ms) (h, hs) = (λ t. cc, Linked-none f ms hs)

  pub last_tall-rank :
      (n p : ℕ) (ms : List ℕ)
      → All (λ m. tall m ≡ true) ms
      → (last_tall tall (record { node = n; rank = p }) p ms).rank ≡ p + length ms
  unfolding last_tall
  last_tall-rank n p [] h = omega arith
  last_tall-rank n p (m ∷ ms) (h, hs) = rw h (omega (arith, last_tall-rank m (suc p) ms hs))

  pub span_le : (k : ℕ) (ms : List ℕ) → (link_to tall k ms).span ≤ k + length ms
  unfolding link_to
  span_le k [] = omega arith
  span_le k (m ∷ ms) = elim (Bool-cases (tall m)) [
    | inl t ↦ rw t (omega arith)
    | inr t ↦ rw t (omega (arith, span_le (suc k) ms))
  ]

-- The levels of the nodes with the new one.
abbrev pub tall_after {ℓ} : {K : Type ℓ} → Skiplist K → ℕ → ℕ → ℕ → Bool
tall_after l random i m = ltb i (if m == l.next_node then random else l.height m)

pub tall_after-new {ℓ} :
    {K : Type ℓ} (l : Skiplist K) (random i : ℕ) → tall_after l random i l.next_node ≡ ltb i random
tall_after-new l random i = ground arith

pub span_ge : (tall : ℕ → Bool) (k : ℕ) (ms : List ℕ) → k ≤ (link_to tall k ms).span
unfolding link_to
span_ge tall k [] = omega arith
span_ge tall k (m ∷ ms) = elim (Bool-cases (tall m)) [
  | inl t ↦ rw t (omega arith)
  | inr t ↦ rw t (omega (arith, span_ge tall (suc k) ms))
]

module _ {ℓ} {K : Type ℓ} (lt : K → K → Bool) (l : Skiplist K) (k : K) (random : ℕ)
    (pre post : List ℕ) (rep : Represents l (pre ++ post)) (small : suc l.length < 2 ^ 64)
    (goes : All (λ m. lt (l.key m) k ≡ true) pre)
    (stops : All (λ m. lt (l.key m) k ≡ false) post) where
  pub tall_after-old : (i : ℕ) → All (λ m. tall_after l random i m ≡ tall_at l i m) (pre ++ post)
  tall_after-old i = All-map (pre ++ post) (λ m b. ground arith) rep.fresh

  none_tall : (i : ℕ) → l.level ≤ i → All (λ m. tall_after l random i m ≡ false) (pre ++ post)
  none_tall i h = All-map₂ (pre ++ post) (λ m b c. ground arith) rep.heights rep.fresh

  pub update-last_tall :
      (i : ℕ) → update l (find_path lt l k) random i ≡ last_tall (tall_after l random i) start 0 pre
  unfolding update
  update-last_tall i = elim (Bool-cases (leb l.level i)) [
    | inl t ↦ rw t (
        sym (
          last_tall_none (tall_after l random i) start 0 pre
            (All-append (λ m. tall_after l random i m ≡ false) pre post
              (none_tall i (ground arith))).0))
    | inr t ↦ rw t (
        find_path-last_tall l pre post rep (omega arith) lt k i goes stops (ground arith)
        ∙ last_tall_same (tall_at l i) (tall_after l random i) start 0 pre
            (All-append (λ m. tall_after l random i m ≡ tall_at l i m) pre post
              (tall_after-old i)).0)
  ]

  abbrev path : ℕ → Cursor
  path = find_path lt l k

  raised_old : (n i : ℕ) → leb l.level i ≡ false → raised l path random n i ≡ l.link n i
  unfolding raised
  raised_old n i h = rw h refl

  raised_new :
      (i : ℕ)
      → leb l.level i ≡ true
      → i < new_level l path random
      → raised l path random 0 i ≡ record { forward = none; span = l.length }
  unfolding raised new_level
  raised_new i h b =
      let e : (ltb i random) ≡ true = ground arith in rw (h, e, rep.above i (ground arith)) refl

  pub raised-header :
      (i : ℕ)
      → i < new_level l path random
      → raised l path random 0 i ≡ link_to (tall_after l random i) 0 (pre ++ post)
  raised-header i h = elim (Bool-cases (leb l.level i)) [
    | inl t ↦
        let e : l.length ≡ 0 + length (pre ++ post) = omega (arith, rep.counted) in
        raised_new i t h
        ∙ (rw (link_to-none (tall_after l random i) 0 (pre ++ post) (none_tall i (ground arith)), e)
            refl)
    | inr t ↦
        raised_old 0 i t
        ∙ rep.header i (ground arith)
        ∙ link_to_same (tall_at l i) (tall_after l random i) 0 (pre ++ post) (tall_after-old i)
  ]

  pub raised-nodes :
      (i : ℕ) → Linked (tall_after l random i) (λ m. raised l path random m i) (pre ++ post)
  raised-nodes i = elim (Bool-cases (leb l.level i)) [
    | inl t ↦
        Linked-none (tall_after l random i) (λ m. raised l path random m i) (pre ++ post)
          (none_tall i (ground arith))
    | inr t ↦ rw (fun_ext (λ (m : ℕ). raised_old m i t)) (
        Linked-same (tall_at l i) (tall_after l random i) (λ m. l.link m i) (pre ++ post)
          (tall_after-old i) (rep.nodes i (ground arith)))
  ]
