-- ===== src/Algo/Skiplist/Rank.antt =====
-- hj/algo/skiplist.hpp: the nodes by their ranks, `get_element_by_rank` and `get_rank`.
use high_jump.Common.{
  ℕ, zero, suc, ◌+◌, ◌^◌, ◌<◌, ◌≤◌, ◌≡◌, refl, sym, ◌∙◌, Bool, true, Bool-cases, inl, inr, List, [],
  ◌∷◌, ◌++◌, All, none, length, arith, ltb, leb, take, drop, take-append-drop, get_elem?,
  length-take, length-drop,
}
use high_jump.Algo.Skiplist.{sub_long, Skiplist, descend, start, get_element_by_rank}
use high_jump.Algo.Skiplist.Walk.{link_to, GoesOn, Stops}
use high_jump.Algo.Skiplist.Level.{link-last_tall}
use high_jump.Algo.Skiplist.Represents.{Represents, tall_at, search-last_tall, All-append, All-map}

sub_long-suc : (k : ℕ) → k < 2 ^ 64 → sub_long (suc k) 1 ≡ k
unfolding sub_long
sub_long-suc k h = omega arith

GoesOn-rank :
    (r k : ℕ) (ms : List ℕ)
    → k + length ms ≤ r
    → r < 2 ^ 64
    → GoesOn (λ y q. ltb (sub_long q 1) r) k ms
GoesOn-rank r k [] h b = tt
GoesOn-rank r k (m ∷ ms) h b =
    (rw (sub_long-suc k (omega arith)) (ground arith), GoesOn-rank r (suc k) ms (omega arith) b)

Stops-rank :
    (r k : ℕ) (ms : List ℕ)
    → r ≤ k
    → k + length ms < 2 ^ 64
    → Stops (λ y q. ltb (sub_long q 1) r) k ms
Stops-rank r k [] h b = tt
Stops-rank r k (m ∷ ms) h b = (
  rw (sub_long-suc k (omega arith)) (ground arith),
  Stops-rank r (suc k) ms (omega arith) (omega arith),
)

pub get_elem?-drop {ℓ} :
    {A : Type ℓ} (r : ℕ) (ns : List A) → get_elem? (drop r ns) 0 ≡ get_elem? ns r
get_elem?-drop zero [] = refl
get_elem?-drop zero (m ∷ ms) = refl
get_elem?-drop (suc r) [] = refl
get_elem?-drop (suc r) (m ∷ ms) = get_elem?-drop r ms

get_elem?_out {ℓ} : {A : Type ℓ} (r : ℕ) (ns : List A) → length ns ≤ r → get_elem? ns r ≡ none
get_elem?_out r [] h = refl
get_elem?_out zero (m ∷ ms) h = absurd (omega arith)
get_elem?_out (suc r) (m ∷ ms) h = get_elem?_out r ms (omega arith)

pub forward-link_to :
    (tall : ℕ → Bool) (k : ℕ) (ms : List ℕ)
    → All (λ m. tall m ≡ true) ms
    → (link_to tall k ms).forward ≡ get_elem? ms 0
unfolding link_to
forward-link_to tall k [] h = refl
forward-link_to tall k (m ∷ ms) (h, hs) = rw h refl

module _ {ℓ} {K : Type ℓ} (l : Skiplist K) where
  -- After a search that stops behind a first part, the link on the lowest level is to the next node.
  pub forward-search :
      (pre post : List ℕ)
      → Represents l (pre ++ post)
      → l.length < 2 ^ 64
      → (go : ℕ → ℕ → Bool) → GoesOn go 0 pre
      → Stops go (length pre) post
      → (l.link (descend go l.link l.length l.level start 0).node 0).forward ≡ get_elem? post 0
  forward-search pre post rep small go g s =
      let at = search-last_tall l pre post rep small go 0 g s rep.in_use in
      let (j, d, e) =
        link-last_tall (tall_at l 0) (λ m. l.link m 0) post pre 0 0 0 0 refl
          (rep.header 0 rep.in_use) (rep.nodes 0 rep.in_use) in
      let all_tall =
        All-map post (λ m b. ground arith)
          (All-append (λ m. (0 < l.height m) × (l.height m ≤ l.level)) pre post rep.heights).1 in
      rw (at, e) (forward-link_to (tall_at l 0) j post all_tall)

  -- `get_element_by_rank` returns the node that stands at that place, and the null pointer exactly
  -- where there is none.
  pub get_element_by_rank-Represents :
      (ns : List ℕ)
      → Represents l ns
      → l.length < 2 ^ 64
      → (rank : ℕ) → get_element_by_rank l rank ≡ get_elem? ns rank
  unfolding get_element_by_rank
  get_element_by_rank-Represents ns rep small rank = elim (Bool-cases (leb l.length rank)) [
    | inl t ↦ rw t (sym (get_elem?_out rank ns (ground (arith, rep.counted))))
    | inr t ↦
        let c : rank < length ns = ground (arith, rep.counted) in
        let rep' : Represents l (take rank ns ++ drop rank ns) =
          rw (take-append-drop rank ns) rep in
        let r =
          forward-search (take rank ns) (drop rank ns) rep' small (λ y q. ltb (sub_long q 1) rank)
            (GoesOn-rank rank 0 (take rank ns) (omega (arith, length-take rank ns))
              (ground (arith, rep.counted)))
            (Stops-rank rank (length (take rank ns)) (drop rank ns)
              (omega (arith, length-take rank ns))
              (omega (arith, length-take rank ns, length-drop rank ns, rep.counted))) in
        rw t (r ∙ get_elem?-drop rank ns)
  ]
