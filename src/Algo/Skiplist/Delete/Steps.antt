-- ===== src/Algo/Skiplist/Delete/Steps.antt =====
-- hj/algo/skiplist.hpp: after `_delete_node_internal` the links stand for the other nodes.
use high_jump.Common.{
  ℕ, zero, suc, ◌+◌, ◌-◌, ◌^◌, ◌<◌, ◌≤◌, ◌≡◌, ◌≢◌, refl, sym, ap, ◌∙◌, Bool, true, false,
  Bool-cases, inl, inr, List, [], ◌∷◌, ◌++◌, All, Option, none, some, arith, ◌==◌, if◌then◌else◌,
  get_elem?,
}
use high_jump.Algo.Skiplist.{add_long, sub_long, Link, Skiplist}
use high_jump.Algo.Skiplist.Delete.{
  is_to, is_none, lowered, delete_link, delete_backward, delete_tail,
}
use high_jump.Algo.Skiplist.Walk.{link_to}
use high_jump.Algo.Skiplist.Represents.{All-map, Distinct, BackwardFrom, last_of}
use high_jump.Algo.Skiplist.Chain.{Distinct-apart, BackwardFrom_same, last_of-append}

pub add_sub_long : (a b : ℕ) → 0 < a → a + b < 2 ^ 64 → add_long a (sub_long b 1) ≡ a + b - 1
unfolding add_long sub_long
add_sub_long a b h g = omega arith

pub sub_long-one : (a : ℕ) → 0 < a → a < 2 ^ 64 → sub_long a 1 ≡ a - 1
unfolding sub_long
sub_long-one a h g = omega arith

pub All-remove :
    (P : ℕ → Type 0) (pre : List ℕ) (x : ℕ) (post : List ℕ)
    → All P (pre ++ (x ∷ post))
    → All P (pre ++ post)
All-remove P [] x post (h, hs) = hs
All-remove P (m ∷ pre) x post (h, hs) = (h, All-remove P pre x post hs)

pub Distinct-remove :
    (pre : List ℕ) (x : ℕ) (post : List ℕ) → Distinct (pre ++ (x ∷ post)) → Distinct (pre ++ post)
Distinct-remove [] x post (d, ds) = ds
Distinct-remove (m ∷ pre) x post (d, ds) =
    (All-remove (λ y. y ≢ m) pre x post d, Distinct-remove pre x post ds)

pub not_to :
    (tall : ℕ → Bool) (x k : ℕ) (ms : List ℕ)
    → All (λ m. m ≢ x) ms
    → is_to x (link_to tall k ms).forward ≡ false
unfolding link_to is_to
not_to tall x k [] h = refl
not_to tall x k (m ∷ ms) (h, hs) = elim (Bool-cases (tall m)) [
  | inl t ↦ rw t (ground arith)
  | inr t ↦ rw t (not_to tall x (suc k) ms hs)
]

pub is_to_self : (x : ℕ) {o : Option ℕ} → o ≡ some x → is_to x o ≡ true
unfolding is_to
is_to_self x e = rw e (ground arith)

-- The link to a list of nodes whose first has the level, or has not.
pub link_to_tall :
    (tall : ℕ → Bool) (x k : ℕ) (ms : List ℕ)
    → tall x ≡ true
    → link_to tall k (x ∷ ms) ≡ record { forward = some x; span = suc k }
unfolding link_to
link_to_tall tall x k ms t = rw t refl

pub link_to_low :
    (tall : ℕ → Bool) (x k : ℕ) (ms : List ℕ)
    → tall x ≡ false
    → link_to tall k (x ∷ ms) ≡ link_to tall (suc k) ms
unfolding link_to
link_to_low tall x k ms t = rw t refl

module _ (back back' : ℕ → Option ℕ) (x : ℕ) where
  abbrev pub Unlinked : List ℕ → Type 0
  Unlinked [] = Unit
  Unlinked (y ∷ ys) = (back' y ≡ back x) × All (λ m. back' m ≡ back m) ys

  pub BackwardFrom-remove :
      (prev : Option ℕ) (pre post : List ℕ)
      → All (λ m. back' m ≡ back m) pre
      → Unlinked post
      → BackwardFrom back prev (pre ++ (x ∷ post))
      → BackwardFrom back' prev (pre ++ post)
  BackwardFrom-remove prev [] [] h r b = tt
  BackwardFrom-remove prev [] (y ∷ ys) h (r, rs) (b, (c, bs)) =
      (r ∙ b, BackwardFrom_same x back back' (some y) ys rs bs)
  BackwardFrom-remove prev (m ∷ pre) post (h, hs) r (b, bs) =
      (h ∙ b, BackwardFrom-remove (some m) pre post hs r bs)

  pub BackwardFrom-last_of :
      (prev : Option ℕ) (pre post : List ℕ)
      → BackwardFrom back prev (pre ++ (x ∷ post))
      → back x ≡ last_of prev pre
  BackwardFrom-last_of prev [] post (b, bs) = b
  BackwardFrom-last_of prev (m ∷ pre) post (b, bs) = BackwardFrom-last_of (some m) pre post bs

-- The level after a removal.
module _ (header : ℕ → Link) where
  pub lowered_le : (n : ℕ) → lowered header n ≤ n
  unfolding lowered
  lowered_le zero = omega arith
  lowered_le (suc zero) = omega arith
  lowered_le (suc (suc n)) = ground (arith, lowered_le (suc n))

  pub lowered_pos : (n : ℕ) → 0 < n → 0 < lowered header n
  unfolding lowered
  lowered_pos zero h = absurd (omega arith)
  lowered_pos (suc zero) h = omega arith
  lowered_pos (suc (suc n)) h = ground (arith, lowered_pos (suc n))

  pub lowered_none : (n i : ℕ) → lowered header n ≤ i → i < n → is_none (header i).forward ≡ true
  unfolding lowered
  lowered_none zero i h b = absurd (omega arith)
  lowered_none (suc zero) i h b = absurd (omega arith)
  lowered_none (suc (suc n)) i h b = elim (Bool-cases (is_none (header (suc n)).forward)) [
    | inl t ↦ elim (Bool-cases (i == suc n)) [
      | inl e ↦ let same : i ≡ suc n = ground arith in rw same t
      | inr e ↦ lowered_none (suc n) i (rw t at h) (ground arith)
    ]
    | inr t ↦ absurd (ground arith)
  ]

pub is_none-eq : (o : Option ℕ) → is_none o ≡ true → o ≡ none
unfolding is_none
is_none-eq none e = refl
is_none-eq (some y) e = cc

is_to-eq : (n : ℕ) (o : Option ℕ) → is_to n o ≡ true → o ≡ some n
unfolding is_to
is_to-eq n none e = cc
is_to-eq n (some y) e = let same : y ≡ n = ground arith in ap some same

All-unit : (ms : List ℕ) → All (λ m. Unit {0}) ms
All-unit [] = tt
All-unit (m ∷ ms) = (tt, All-unit ms)

module _ {ℓ} {K : Type ℓ} (l : Skiplist K) (path : ℕ → ℕ) (x : ℕ) where
  pub delete_link-other : (m i : ℕ) → m ≢ path i → delete_link l path x m i ≡ l.link m i
  unfolding delete_link
  delete_link-other m i h = ground arith

  pub delete_link-above : (m i : ℕ) → l.level ≤ i → delete_link l path x m i ≡ l.link m i
  unfolding delete_link
  delete_link-above m i h = ground arith

  pub delete_link-path :
      (i : ℕ)
      → i < l.level
      → delete_link l path x (path i) i ≡ (
          if is_to x (l.link (path i) i).forward
          then record {
            forward = (l.link x i).forward;
            span = add_long (l.link (path i) i).span (sub_long (l.link x i).span 1);
          }
          else record {
            forward = (l.link (path i) i).forward;
            span = sub_long (l.link (path i) i).span 1;
          })
  unfolding delete_link
  delete_link-path i h = ground arith

  delete_backward-head :
      {y : ℕ}
      → (delete_link l path x x 0).forward ≡ some y
      → delete_backward l path x y ≡ l.backward x
  unfolding delete_backward is_to
  delete_backward-head e = ground arith

  delete_backward-other :
      (n : ℕ)
      → (delete_link l path x x 0).forward ≢ some n
      → delete_backward l path x n ≡ l.backward n
  unfolding delete_backward
  delete_backward-other n e = ground (arith, is_to-eq n (delete_link l path x x 0).forward)

  pub delete_backward-Unlinked :
      (ms : List ℕ)
      → (delete_link l path x x 0).forward ≡ get_elem? ms 0
      → Distinct ms
      → Unlinked l.backward (delete_backward l path x) x ms
  delete_backward-Unlinked [] e d = tt
  delete_backward-Unlinked (y ∷ ys) e (d, ds) = (
    delete_backward-head e,
    All-map ys (λ m a. delete_backward-other m (λ f. a (ground arith))) d,
  )

  pub delete_backward-before :
      (pre ms : List ℕ)
      → (delete_link l path x x 0).forward ≡ get_elem? ms 0
      → Distinct (pre ++ ms)
      → All (λ m. delete_backward l path x m ≡ l.backward m) pre
  delete_backward-before pre [] e d =
      All-map {P = λ m. Unit {0}} pre (λ m b. delete_backward-other m (λ f. ground arith))
        (All-unit pre)
  delete_backward-before pre (y ∷ ys) e d =
      All-map pre (λ m a. delete_backward-other m (λ f. a (ground arith)))
        (Distinct-apart pre y ys d)

  delete_tail-none : (delete_link l path x x 0).forward ≡ none → delete_tail l path x ≡ l.backward x
  unfolding delete_tail is_none
  delete_tail-none e = ground arith

  delete_tail-some :
      {y : ℕ} → (delete_link l path x x 0).forward ≡ some y → delete_tail l path x ≡ l.tail
  unfolding delete_tail is_none
  delete_tail-some e = ground arith

  pub delete_tail-last_of :
      (pre ms : List ℕ)
      → (delete_link l path x x 0).forward ≡ get_elem? ms 0
      → l.backward x ≡ last_of none pre
      → l.tail ≡ last_of none (pre ++ (x ∷ ms))
      → delete_tail l path x ≡ last_of none (pre ++ ms)
  delete_tail-last_of pre [] e b h = delete_tail-none e ∙ b ∙ sym (last_of-append none pre [])
  delete_tail-last_of pre (y ∷ ys) e b h =
      delete_tail-some e
      ∙ h
      ∙ last_of-append none pre (x ∷ (y ∷ ys))
      ∙ sym (last_of-append none pre (y ∷ ys))
