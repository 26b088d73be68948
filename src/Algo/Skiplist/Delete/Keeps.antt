-- ===== src/Algo/Skiplist/Delete/Keeps.antt =====
-- hj/algo/skiplist.hpp: after `_delete_node_internal` the links stand for the other nodes.
use high_jump.Common.{
  ℕ, suc, ◌+◌, ◌-◌, ◌^◌, ◌<◌, ◌≤◌, ◌≡◌, ◌≢◌, refl, sym, ap, ◌∙◌, false, Bool-cases, inl, inr, List,
  ◌∷◌, ◌++◌, All, none, some, length-append, arith, ltb, if◌then◌else◌, get_elem?,
}
use high_jump.Algo.Skiplist.{Link, Cursor, Skiplist, start}
use high_jump.Algo.Skiplist.Delete.{is_to, lowered, delete_link, delete_backward, delete_internal}
use high_jump.Algo.Skiplist.Walk.{link_to, Linked, last_tall}
use high_jump.Algo.Skiplist.Level.{link-last_tall}
use high_jump.Algo.Skiplist.Find.{link_to-cases}
use high_jump.Algo.Skiplist.Rank.{forward-link_to}
use high_jump.Algo.Skiplist.Represents.{Represents, tall_at, All-append, All-map}
use high_jump.Algo.Skiplist.InsertLevel.{last_tall_mem}
use high_jump.Algo.Skiplist.InsertPath.{All-map₂, span_le, span_ge}
use high_jump.Algo.Skiplist.Chain.{Linked-at, Distinct-apart, Distinct-append}
use high_jump.Algo.Skiplist.Delete.Level.{delete-Linked}
use high_jump.Algo.Skiplist.Delete.Steps.{
  All-remove, Distinct-remove, add_sub_long, sub_long-one, not_to, BackwardFrom-remove,
  BackwardFrom-last_of, lowered_le, is_to_self, link_to_tall, link_to_low, lowered_pos,
  lowered_none, is_none-eq, delete_link-other, delete_link-above, delete_link-path,
  delete_backward-Unlinked, delete_backward-before, delete_tail-last_of,
}

module _ {ℓ} {K : Type ℓ} (l : Skiplist K) (path : ℕ → ℕ) (pre : List ℕ) (x : ℕ) (post : List ℕ)
    (rep : Represents l (pre ++ (x ∷ post))) (small : l.length < 2 ^ 64)
    (on_path : (i : ℕ) → i < l.level → path i ≡ (last_tall (tall_at l i) start 0 pre).node) where
  abbrev at : ℕ → Cursor
  at i = last_tall (tall_at l i) start 0 pre

  x-here : (0 < x) × (x < l.next_node)
  x-here = (All-append (λ m. (0 < m) × (m < l.next_node)) pre (x ∷ post) rep.fresh).1.0

  at-other : (i : ℕ) → (at i).node ≢ x
  at-other i =
      last_tall_mem (λ m. m ≢ x) (tall_at l i) start 0 pre (λ e. ground (arith, x-here))
        (Distinct-apart pre x post rep.distinct)

  post-other : All (λ m. m ≢ x) post
  post-other = (Distinct-append pre (x ∷ post) rep.distinct).0

  link-path :
      (i : ℕ)
      → i < l.level
      → delete_link l path x (at i).node i ≡ (
          if tall_at l i x
          then record {
            forward = (l.link x i).forward;
            span = (l.link (at i).node i).span + (l.link x i).span - 1;
          }
          else record {
            forward = (l.link (at i).node i).forward;
            span = (l.link (at i).node i).span - 1;
          })
  link-path i h =
      let (j, d, e) =
        link-last_tall (tall_at l i) (λ m. l.link m i) (x ∷ post) pre 0 0 0 0 refl (rep.header i h)
          (rep.nodes i h) in
      let c = length-append pre (x ∷ post) in
      let r = rw (on_path i h) at (delete_link-path l path x i h) in
      elim (Bool-cases (tall_at l i x)) [
        | inl t ↦
            let fu = e ∙ link_to_tall (tall_at l i) x j post t in
            let su : (l.link (at i).node i).span ≡ suc j = ap (λ (c : Link). c.span) fu in
            let fx = Linked-at x (tall_at l i) (λ m. l.link m i) pre post (rep.nodes i h) t in
            let sx : (l.link x i).span ≡ (link_to (tall_at l i) 0 post).span =
              ap (λ (c : Link). c.span) fx in
            let found = is_to_self x (ap (λ (c : Link). c.forward) fu) in
            let added =
              add_sub_long (l.link (at i).node i).span (l.link x i).span (omega arith)
                (omega (arith, span_le (tall_at l i) 0 post, rep.counted)) in
            r ∙ (rw (found, t, added) refl)
        | inr t ↦
            let fu = e ∙ link_to_low (tall_at l i) x j post t in
            let su : (l.link (at i).node i).span ≡ (link_to (tall_at l i) (suc j) post).span =
              ap (λ (c : Link). c.span) fu in
            let missed : is_to x (l.link (at i).node i).forward ≡ false =
              rw fu (not_to (tall_at l i) x (suc j) post post-other) in
            let less =
              sub_long-one (l.link (at i).node i).span
                (omega (arith, span_ge (tall_at l i) (suc j) post))
                (omega (arith, span_le (tall_at l i) (suc j) post, rep.counted)) in
            r ∙ (rw (missed, t, less) refl)
      ]

  delete_link-Linked :
      (i : ℕ)
      → i < l.level
      → (delete_link l path x 0 i ≡ link_to (tall_at l i) 0 (pre ++ post))
        × Linked (tall_at l i) (λ m. delete_link l path x m i) (pre ++ post)
  delete_link-Linked i h =
      delete-Linked (tall_at l i) (λ m. l.link m i) (λ m. delete_link l path x m i) x post (at i)
        (λ m a. delete_link-other l path x m i (rw (on_path i h) a)) (link-path i h) pre 0 0 0 0
        refl (rep.header i h) (rep.nodes i h)
        (All-map (pre ++ (x ∷ post)) (λ m b. ground arith) rep.fresh, rep.distinct)

  next_of_old : (delete_link l path x x 0).forward ≡ get_elem? post 0
  next_of_old =
      let ht =
        (All-append (λ m. (0 < l.height m) × (l.height m ≤ l.level)) pre (x ∷ post)
          rep.heights).1 in
      let other : x ≢ path 0 = λ e. at-other 0 (sym (e ∙ on_path 0 rep.in_use)) in
      let fx =
        Linked-at x (tall_at l 0) (λ m. l.link m 0) pre post (rep.nodes 0 rep.in_use)
          (ground (arith, ht.0)) in
      ap (λ (c : Link). c.forward) (delete_link-other l path x x 0 other ∙ fx)
      ∙ forward-link_to (tall_at l 0) 0 post (All-map post (λ m b. ground arith) ht.1)

  header-none :
      (i : ℕ)
      → lowered (delete_link l path x 0) l.level ≤ i
      → (delete_link l path x 0 i).forward ≡ none
  header-none i h = elim (Bool-cases (ltb i l.level)) [
    | inl t ↦
        is_none-eq (delete_link l path x 0 i).forward
          (lowered_none (delete_link l path x 0) l.level i h (ground arith))
    | inr t ↦ rw (delete_link-above l path x 0 i (ground arith)) (rep.above i (ground arith))
  ]

  heights-left :
      All
        (λ m. (0 < l.height m) × (l.height m ≤ lowered (delete_link l path x 0) l.level))
        (pre ++ post)
  heights-left =
      let v = lowered (delete_link l path x 0) l.level in
      let old =
        All-remove (λ m. (0 < l.height m) × (l.height m ≤ l.level)) pre x post rep.heights in
      elim (Bool-cases (ltb v l.level)) [
        | inl t ↦
            let e = ap (λ (c : Link). c.forward) (delete_link-Linked v (ground arith)).0 in
            elim (link_to-cases (tall_at l v) 0 (pre ++ post)) [
              | inl (none_there, low) ↦ All-map₂ (pre ++ post) (λ m b c. ground arith) old low
              | inr (n, y, some_there, w, g, q) ↦
                  let f : none ≡ some y = sym (header-none v (omega arith)) ∙ e ∙ some_there in
                  absurd (ground arith)
            ]
        | inr t ↦ All-map (pre ++ post) (λ m b. ground arith) old
      ]

  pub delete_internal-Represents : Represents (delete_internal l path x) (pre ++ post)
  unfolding delete_internal
  delete_internal-Represents = record {
    header = λ i h.
        (delete_link-Linked i (omega (arith, lowered_le (delete_link l path x 0) l.level))).0;
    nodes = λ i h.
        (delete_link-Linked i (omega (arith, lowered_le (delete_link l path x 0) l.level))).1;
    above = header-none;
    heights = heights-left;
    fresh = All-remove (λ m. (0 < m) × (m < l.next_node)) pre x post rep.fresh;
    distinct = Distinct-remove pre x post rep.distinct;
    counted =
        sub_long-one l.length (omega (arith, rep.counted, length-append pre (x ∷ post))) small
        ∙ (omega (arith, rep.counted, length-append pre (x ∷ post), length-append pre post));
    back =
        BackwardFrom-remove l.backward (delete_backward l path x) x none pre post
          (delete_backward-before l path x pre post next_of_old
            (Distinct-remove pre x post rep.distinct))
          (delete_backward-Unlinked l path x post next_of_old
            (Distinct-append pre (x ∷ post) rep.distinct).1)
          rep.back;
    last =
        delete_tail-last_of l path x pre post next_of_old
          (BackwardFrom-last_of l.backward (delete_backward l path x) x none pre post rep.back)
          rep.last;
    in_use = lowered_pos (delete_link l path x 0) l.level rep.in_use;
    limited = omega (arith, rep.limited, lowered_le (delete_link l path x 0) l.level);
    started = rep.started;
  }
