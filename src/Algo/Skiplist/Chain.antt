-- ===== src/Algo/Skiplist/Chain.antt =====
-- hj/algo/skiplist.hpp: the parts of a list around a new node, and the new backward links.
use high_jump.Common.{
  ℕ, suc, ◌<◌, ◌≤◌, ◌≡◌, ◌≢◌, refl, sym, ◌∙◌, Bool, true, false, List, [], ◌∷◌, ◌++◌, All, Option,
  none, some, arith, ◌==◌, if◌then◌else◌, get_elem?,
}
use high_jump.Algo.Skiplist.{
  Link, Cursor, Skiplist, start, raised, new_level, insert_link, insert_backward, insert_tail,
}
use high_jump.Algo.Skiplist.Walk.{link_to, Linked, last_tall}
use high_jump.Algo.Skiplist.Represents.{All-append, All-map, Distinct, BackwardFrom, last_of}
use high_jump.Algo.Skiplist.InsertLevel.{last_tall_mem}
use high_jump.Algo.Skiplist.InsertPath.{All-map₂}

module _ (x : ℕ) where
  pub All-insert :
      (P : ℕ → Type 0) (pre post : List ℕ) → P x → All P (pre ++ post) → All P (pre ++ (x ∷ post))
  All-insert P [] post h hs = (h, hs)
  All-insert P (m ∷ pre) post h (g, gs) = (g, All-insert P pre post h gs)

  pub Distinct-insert :
      (pre post : List ℕ)
      → All (λ m. m ≢ x) (pre ++ post)
      → Distinct (pre ++ post)
      → Distinct (pre ++ (x ∷ post))
  Distinct-insert [] post h d = (h, d)
  Distinct-insert (m ∷ pre) post (h, hs) (d, ds) =
      (All-insert (λ y. y ≢ m) pre post (λ e. h (sym e)) d, Distinct-insert pre post hs ds)

  pub Linked-at :
      (tall : ℕ → Bool) (f : ℕ → Link) (pre post : List ℕ)
      → Linked tall f (pre ++ (x ∷ post))
      → tall x ≡ true
      → f x ≡ link_to tall 0 post
  Linked-at tall f [] post (l, ls) t = l t
  Linked-at tall f (m ∷ pre) post (l, ls) t = Linked-at tall f pre post ls t

  -- The new node is behind the last of the first part, and the first of the others behind it.
  module _ (back back' : ℕ → Option ℕ) where
    abbrev pub Relinked : List ℕ → Type 0
    Relinked [] = Unit
    Relinked (y ∷ ys) = (back' y ≡ some x) × All (λ m. back' m ≡ back m) ys

    pub BackwardFrom_same :
        (prev : Option ℕ) (ms : List ℕ)
        → All (λ m. back' m ≡ back m) ms
        → BackwardFrom back prev ms
        → BackwardFrom back' prev ms
    BackwardFrom_same prev [] h b = tt
    BackwardFrom_same prev (m ∷ ms) (h, hs) (b, bs) = (h ∙ b, BackwardFrom_same (some m) ms hs bs)

    pub BackwardFrom-insert :
        (prev : Option ℕ) (pre post : List ℕ)
        → All (λ m. back' m ≡ back m) pre
        → back' x ≡ last_of prev pre
        → Relinked post
        → BackwardFrom back prev (pre ++ post)
        → BackwardFrom back' prev (pre ++ (x ∷ post))
    BackwardFrom-insert prev [] [] h e r b = (e, tt)
    BackwardFrom-insert prev [] (y ∷ ys) h e (r, rs) (b, bs) =
        (e, (r, BackwardFrom_same (some y) ys rs bs))
    BackwardFrom-insert prev (m ∷ pre) post (h, hs) e r (b, bs) =
        (h ∙ b, BackwardFrom-insert (some m) pre post hs e r bs)

pub last_of-append :
    (prev : Option ℕ) (pre post : List ℕ)
    → last_of prev (pre ++ post) ≡ last_of (last_of prev pre) post
last_of-append prev [] post = refl
last_of-append prev (m ∷ pre) post = last_of-append (some m) pre post

last_tall-node :
    (tall : ℕ → Bool) (n r p : ℕ) (ms : List ℕ)
    → All (λ m. tall m ≡ true) ms
    → some (last_tall tall (record { node = n; rank = r }) p ms).node ≡ last_of (some n) ms
unfolding last_tall
last_tall-node tall n r p [] h = refl
last_tall-node tall n r p (m ∷ ms) (h, hs) = rw h (last_tall-node tall m (suc p) (suc p) ms hs)

-- The node of the search as a predecessor, where the header, 0, counts as none.
pub predecessor :
    (tall : ℕ → Bool) (ms : List ℕ)
    → All (λ m. tall m ≡ true) ms
    → All (λ m. 0 < m) ms
    → (if (last_tall tall start 0 ms).node == 0
        then none
        else some (last_tall tall start 0 ms).node)
      ≡ last_of none ms
unfolding last_tall
predecessor tall [] h g = refl
predecessor tall (m ∷ ms) (h, hs) (g, gs) =
    let pos = last_tall_mem (λ y. 0 < y) tall (record { node = m; rank = 1 }) 1 ms g gs in
    let e : ((last_tall tall (record { node = m; rank = 1 }) 1 ms).node == 0) ≡ false =
      ground arith in
    rw (h, e) (last_tall-node tall m 1 1 ms hs)

pub Distinct-apart :
    (pre : List ℕ) (y : ℕ) (ys : List ℕ) → Distinct (pre ++ (y ∷ ys)) → All (λ m. m ≢ y) pre
Distinct-apart [] y ys d = tt
Distinct-apart (m ∷ pre) y ys (d, ds) =
    let other = (All-append (λ z. z ≢ m) pre (y ∷ ys) d).1.0 in
    (λ e. other (sym e), Distinct-apart pre y ys ds)

pub Distinct-append : (pre post : List ℕ) → Distinct (pre ++ post) → Distinct post
Distinct-append [] post d = d
Distinct-append (m ∷ pre) post (d, ds) = Distinct-append pre post ds

module _ {ℓ} {K : Type ℓ} (l : Skiplist K) (path : ℕ → Cursor) (random : ℕ) where
  pub insert_backward-new :
      insert_backward l path random l.next_node
      ≡ (if (path 0).node == 0 then none else some (path 0).node)
  unfolding insert_backward
  insert_backward-new = ground arith

  pub insert_backward-next :
      {y : ℕ}
      → (insert_link l path random l.next_node 0).forward ≡ some y
      → y ≢ l.next_node
      → insert_backward l path random y ≡ some l.next_node
  unfolding insert_backward
  insert_backward-next e h = ground arith

  pub insert_backward-other :
      (n : ℕ)
      → (insert_link l path random l.next_node 0).forward ≢ some n
      → n ≢ l.next_node
      → insert_backward l path random n ≡ l.backward n
  unfolding insert_backward
  insert_backward-other n e h = ground arith

  pub insert_link-above :
      (i : ℕ) → new_level l path random ≤ i → insert_link l path random 0 i ≡ l.link 0 i
  unfolding insert_link new_level raised
  insert_link-above i h = ground arith

  -- Of the nodes behind the new one, only the next gets another `backward`, and none of those before it.
  pub new_backward-Relinked :
      (ms : List ℕ)
      → (insert_link l path random l.next_node 0).forward ≡ get_elem? ms 0
      → Distinct ms
      → All (λ m. m ≢ l.next_node) ms
      → Relinked l.next_node l.backward (insert_backward l path random) ms
  new_backward-Relinked [] e d h = tt
  new_backward-Relinked (y ∷ ys) e (d, ds) (h, hs) = (
    insert_backward-next e h,
    All-map₂ ys (λ m a b. insert_backward-other m (λ f. a (ground arith)) b) d hs,
  )

  pub insert_backward-before :
      (pre ms : List ℕ)
      → (insert_link l path random l.next_node 0).forward ≡ get_elem? ms 0
      → Distinct (pre ++ ms)
      → All (λ m. m ≢ l.next_node) pre
      → All (λ m. insert_backward l path random m ≡ l.backward m) pre
  insert_backward-before pre [] e d h =
      All-map pre (λ m b. insert_backward-other m (λ f. ground arith) b) h
  insert_backward-before pre (y ∷ ys) e d h =
      All-map₂ pre (λ m a b. insert_backward-other m (λ f. a (ground arith)) b)
        (Distinct-apart pre y ys d) h

  insert_tail-none :
      (insert_link l path random l.next_node 0).forward ≡ none
      → insert_tail l path random ≡ some l.next_node
  unfolding insert_tail
  insert_tail-none e = ground arith

  insert_tail-some :
      {y : ℕ}
      → (insert_link l path random l.next_node 0).forward ≡ some y
      → insert_tail l path random ≡ l.tail
  unfolding insert_tail
  insert_tail-some e = ground arith

  pub insert_tail-last_of :
      (pre ms : List ℕ)
      → (insert_link l path random l.next_node 0).forward ≡ get_elem? ms 0
      → l.tail ≡ last_of none (pre ++ ms)
      → insert_tail l path random ≡ last_of none (pre ++ (l.next_node ∷ ms))
  insert_tail-last_of pre [] e h =
      insert_tail-none e ∙ sym (last_of-append none pre (l.next_node ∷ []))
  insert_tail-last_of pre (y ∷ ys) e h =
      insert_tail-some e
      ∙ h
      ∙ last_of-append none pre (y ∷ ys)
      ∙ sym (last_of-append none pre (l.next_node ∷ (y ∷ ys)))
