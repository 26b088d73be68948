-- ===== src/Algo/Skiplist/Insert.antt =====
-- hj/algo/skiplist.hpp: `insert` puts the new node between those before its key and those from it on.
use high_jump.Common.{
  ℕ, suc, ◌+◌, ◌-◌, ◌^◌, ◌<◌, ◌≤◌, ◌≡◌, ◌≢◌, refl, sym, ap, ◌∙◌, Bool, true, false, Bool-cases, inl,
  inr, List, [], ◌∷◌, ◌++◌, All, some, length, length-append, arith, ltb, if◌then◌else◌,
}
use high_jump.Algo.Skiplist.{
  add_long, sub_long, Link, Cursor, Skiplist, start, find_path, update, raised, new_level, gap,
  insert_link,
}
use high_jump.Algo.Skiplist.Walk.{link_to, Linked, last_tall, add_long-below}
use high_jump.Algo.Skiplist.Level.{link-last_tall}
use high_jump.Algo.Skiplist.Represents.{
  Represents, tall_at, All-append, All-map, find_path-last_tall,
}
use high_jump.Algo.Skiplist.InsertLevel.{last_tall_mem, insert-Linked}
use high_jump.Algo.Skiplist.InsertPath.{
  tall_after, update-last_tall, raised-header, raised-nodes, last_tall-rank, span_le, span_ge,
  tall_after-new,
}

-- `insert_link` on one level, by the node.
module _ {ℓ} {K : Type ℓ} (l : Skiplist K) (path : ℕ → Cursor) (random i : ℕ) where
  insert_link-new :
      ltb i random ≡ true
      → insert_link l path random l.next_node i ≡ record {
        forward = (raised l path random (update l path random i).node i).forward;
        span =
            sub_long
              (raised l path random (update l path random i).node i).span
              (gap l path random i);
      }
  unfolding insert_link
  insert_link-new t = ground arith

  insert_link-update :
      (update l path random i).node ≢ l.next_node
      → i < new_level l path random
      → insert_link l path random (update l path random i).node i ≡ (
          if ltb i random
          then record { forward = some l.next_node; span = add_long (gap l path random i) 1 }
          else record {
            forward = (raised l path random (update l path random i).node i).forward;
            span = add_long (raised l path random (update l path random i).node i).span 1;
          })
  unfolding insert_link
  insert_link-update h b = ground arith

  insert_link-other :
      (m : ℕ)
      → m ≢ (update l path random i).node
      → m ≢ l.next_node
      → insert_link l path random m i ≡ raised l path random m i
  unfolding insert_link
  insert_link-other m h g = ground arith

sub_long-le : (a b : ℕ) → b ≤ a → a < 2 ^ 64 → sub_long a b ≡ a - b
unfolding sub_long
sub_long-le a b h g = omega arith

-- The rank of such a search is at most the number of nodes.
last_tall-rank_le :
    (tall : ℕ → Bool) (c : Cursor) (p : ℕ) (ms : List ℕ)
    → c.rank ≤ p
    → (last_tall tall c p ms).rank ≤ p + length ms
unfolding last_tall
last_tall-rank_le tall c p [] h = omega arith
last_tall-rank_le tall c p (m ∷ ms) h = elim (Bool-cases (tall m)) [
  | inl t ↦ rw t (
      omega (
        arith,
        last_tall-rank_le tall (record { node = m; rank = suc p }) (suc p) ms (omega arith),
      ))
  | inr t ↦ rw t (omega (arith, last_tall-rank_le tall c (suc p) ms (omega arith)))
]

module _ {ℓ} {K : Type ℓ} (lt : K → K → Bool) (l : Skiplist K) (k : K) (random : ℕ)
    (pre post : List ℕ) (rep : Represents l (pre ++ post)) (small : suc l.length < 2 ^ 64)
    (goes : All (λ m. lt (l.key m) k ≡ true) pre) (stops : All (λ m. lt (l.key m) k ≡ false) post)
    (some_level : 0 < random) where
  abbrev pub path : ℕ → Cursor
  path = find_path lt l k

  abbrev tall : ℕ → ℕ → Bool
  tall = tall_after l random

  abbrev at : ℕ → Cursor
  at i = last_tall (tall i) start 0 pre

  path-rank : (path 0).rank ≡ length pre
  path-rank =
      let ht = All-append (λ m. (0 < l.height m) × (l.height m ≤ l.level)) pre post rep.heights in
      let r = last_tall-rank (tall_at l 0) 0 0 pre (All-map pre (λ m b. ground arith) ht.0) in
      let e = find_path-last_tall l pre post rep (omega arith) lt k 0 goes stops rep.in_use in
      ap (λ (c : Cursor). c.rank) e ∙ r ∙ (omega arith)

  pub same_update : (i : ℕ) → update l path random i ≡ at i
  same_update = update-last_tall lt l k random pre post rep small goes stops

  gap-rank : (i : ℕ) → gap l path random i ≡ length pre - (at i).rank
  unfolding gap
  gap-rank i =
      rw (path-rank, same_update i)
        (sub_long-le (length pre) (at i).rank
          (omega (arith, last_tall-rank_le (tall i) start 0 pre (omega arith)))
          (omega (arith, rep.counted, length-append pre post)))

  span-at :
      (i : ℕ)
      → i < new_level l path random
      → (length pre - (at i).rank ≤ (raised l path random (at i).node i).span)
        × ((raised l path random (at i).node i).span ≤ l.length)
  span-at i h =
      let (j, d, e) =
        link-last_tall (tall i) (λ m. raised l path random m i) post pre 0 0 0 0 refl
          (raised-header lt l k random pre post rep small goes stops i h)
          (raised-nodes lt l k random pre post rep small goes stops i) in
      let w : (raised l path random (at i).node i).span ≡ (link_to (tall i) j post).span =
        ap (λ (c : Link). c.span) e in
      (
        omega (arith, span_ge (tall i) j post),
        omega (arith, span_le (tall i) j post, rep.counted, length-append pre post),
      )

  at-old : (i : ℕ) → (at i).node < l.next_node
  at-old i =
      last_tall_mem (λ m. m < l.next_node) (tall i) start 0 pre rep.started
        (All-map pre (λ m b. b.1)
          (All-append (λ m. (0 < m) × (m < l.next_node)) pre post rep.fresh).0)

  link-new :
      (i : ℕ)
      → i < new_level l path random
      → ltb i random ≡ true
      → insert_link l path random l.next_node i ≡ record {
        forward = (raised l path random (at i).node i).forward;
        span = (raised l path random (at i).node i).span - (length pre - (at i).rank);
      }
  link-new i h t =
      let s =
        sub_long-le (raised l path random (at i).node i).span (length pre - (at i).rank)
          (span-at i h).0 (omega (arith, (span-at i h).1)) in
      let r = insert_link-new l path random i t in rw (gap-rank i, same_update i, s) at r

  link-update :
      (i : ℕ)
      → i < new_level l path random
      → insert_link l path random (at i).node i ≡ (
          if tall i l.next_node
          then record { forward = some l.next_node; span = suc (length pre - (at i).rank) }
          else record {
            forward = (raised l path random (at i).node i).forward;
            span = suc (raised l path random (at i).node i).span;
          })
  link-update i h =
      let a : add_long (raised l path random (at i).node i).span 1
          ≡ suc (raised l path random (at i).node i).span =
        add_long-below (raised l path random (at i).node i).span 1 (omega (arith, (span-at i h).1))
        ∙ (omega arith) in
      let b : add_long (length pre - (at i).rank) 1 ≡ suc (length pre - (at i).rank) =
        add_long-below (length pre - (at i).rank) 1
          (omega (arith, rep.counted, length-append pre post))
        ∙ (omega arith) in
      let r = insert_link-update l path random i (rw (same_update i) (omega (arith, at-old i))) h in
      rw (tall_after-new l random i) (rw (gap-rank i, same_update i, a, b) at r)

  pub insert_link-Linked :
      (i : ℕ)
      → i < new_level l path random
      → (insert_link l path random 0 i ≡ link_to (tall i) 0 (pre ++ (l.next_node ∷ post)))
        × Linked (tall i) (λ m. insert_link l path random m i) (pre ++ (l.next_node ∷ post))
  insert_link-Linked i h =
      insert-Linked (tall i) (λ m. raised l path random m i) (λ m. insert_link l path random m i)
        l.next_node post (at i) (length pre)
        (λ m a b. insert_link-other l path random i m (rw (same_update i) a) b)
        (λ t. link-new i h (sym (tall_after-new l random i) ∙ t)) (link-update i h) pre 0 0 0 0 refl
        (omega arith) refl (raised-header lt l k random pre post rep small goes stops i h)
        (raised-nodes lt l k random pre post rep small goes stops i)
        (All-map (pre ++ post) (λ m b. ground arith) rep.fresh, rep.distinct)
        (ground (arith, rep.started), All-map (pre ++ post) (λ m b. ground arith) rep.fresh)
