-- ===== src/Algo/Skiplist/Query/RankSlice.antt =====
-- hj/algo/skiplist.hpp: the nodes that `range_by_rank` collects.
use high_jump.Common.{
  ℕ, zero, suc, ◌+◌, ◌-◌, ◌^◌, ◌<◌, ◌≤◌, ◌≡◌, refl, sym, ap, ◌∙◌, Bool, true, false, Bool-cases,
  inl, inr, List, [], ◌∷◌, ◌++◌, some, length, arith, length-append, take, drop, take_all, drop_all,
  leb, ltb, if◌then◌else◌, ◌||◌, get_elem?, length-drop, length-take,
}
use high_jump.Algo.Skiplist.{Skiplist, get_element_by_rank, add_long, sub_long}
use high_jump.Algo.Skiplist.Walk.{add_long-below}
use high_jump.Algo.Skiplist.Represents.{Represents}
use high_jump.Algo.Skiplist.Rank.{get_element_by_rank-Represents}
use high_jump.Algo.Skiplist.Delete.Steps.{sub_long-one}
use high_jump.Algo.Skiplist.Query.{
  RangeResult, collect_one, collect_up, collect_down, range_by_rank,
}

unfoldable pub reverse : List ℕ → List ℕ
reverse [] = []
reverse (m ∷ ms) = reverse ms ++ (m ∷ [])

-- A list of nodes with their number.
abbrev pub counted : List ℕ → RangeResult
counted ns = record { nodes = ns; total_in_range = length ns }

nothing :
    (backwards : Bool)
    → record { nodes = []; total_in_range = 0 } ≡ counted (if backwards then reverse [] else [])
unfolding reverse
nothing true = refl
nothing false = refl

get_elem?-cases :
    (i : ℕ) (ns : List ℕ)
    → i < length ns
    → (x : ℕ) × (get_elem? ns i ≡ some x) × (drop i ns ≡ x ∷ drop (suc i) ns)
get_elem?-cases i [] h = absurd (omega arith)
get_elem?-cases zero (m ∷ ms) h = (m, refl, refl)
get_elem?-cases (suc i) (m ∷ ms) h = get_elem?-cases i ms (omega arith)

get_elem?-drop : (i n : ℕ) (ns : List ℕ) → get_elem? (drop i ns) n ≡ get_elem? ns (i + n)
get_elem?-drop zero n ns = let e : 0 + n ≡ n = omega arith in rw e refl
get_elem?-drop (suc i) n [] = refl
get_elem?-drop (suc i) n (m ∷ ms) =
    let e : suc i + n ≡ suc (i + n) = omega arith in rw e (get_elem?-drop i n ms)

take-suc :
    (n : ℕ) (ys : List ℕ) {x : ℕ}
    → get_elem? ys n ≡ some x
    → take (suc n) ys ≡ take n ys ++ (x ∷ [])
take-suc n [] e = cc
take-suc zero (y ∷ ys) e = ground arith
take-suc (suc n) (y ∷ ys) e = ap (◌∷◌ y) (take-suc n ys e)

reverse-append : (ys : List ℕ) (x : ℕ) → reverse (ys ++ (x ∷ [])) ≡ x ∷ reverse ys
unfolding reverse
reverse-append [] x = refl
reverse-append (y ∷ ys) x = rw (reverse-append ys x) refl

length-reverse : (ys : List ℕ) → length (reverse ys) ≡ length ys
unfolding reverse
length-reverse [] = refl
length-reverse (y ∷ ys) = omega (arith, length-append (reverse ys) (y ∷ []), length-reverse ys)

module _ {ℓ} {K : Type ℓ} (l : Skiplist K) (ns : List ℕ) (rep : Represents l ns)
    (small : l.length < 2 ^ 64) where
  collect_one-counted :
      (i : ℕ) (x : ℕ) (r : List ℕ)
      → get_elem? ns i ≡ some x
      → length r < length ns
      → collect_one l i (counted r) ≡ counted (x ∷ r)
  unfolding collect_one
  collect_one-counted i x r e h =
      let w : add_long (length r) 1 ≡ suc (length r) =
        add_long-below (length r) 1 (omega (arith, rep.counted)) ∙ (omega arith) in
      let g : get_element_by_rank l i ≡ some x =
        get_element_by_rank-Represents l ns rep small i ∙ e in
      rw (g, collect_one) (rw w refl)

  collect_up-take : (i n : ℕ) → i + n ≤ length ns → collect_up l i n ≡ counted (take n (drop i ns))
  unfolding collect_up
  collect_up-take i zero h = refl
  collect_up-take i (suc n) h =
      let (x, e, d) = get_elem?-cases i ns (omega arith) in
      let s : i + 1 ≡ suc i = omega arith in
      rw (s, collect_up-take (suc i) n (omega arith), d)
        (collect_one-counted i x (take n (drop (suc i) ns)) e
          (omega (arith, length-take n (drop (suc i) ns))))

  collect_down-take :
      (i n : ℕ)
      → i + n ≤ length ns
      → collect_down l (i + n) n ≡ counted (reverse (take n (drop i ns)))
  unfolding collect_down reverse
  collect_down-take i zero h = refl
  collect_down-take i (suc n) h =
      let (x, e, d) = get_elem?-cases (i + n) ns (omega arith) in
      let s : i + suc n - 1 ≡ i + n = omega arith in
      let t = take-suc n (drop i ns) (get_elem?-drop i n ns ∙ e) in
      rw (s, collect_down-take i n (omega arith), t, reverse-append (take n (drop i ns)) x)
        (collect_one-counted (i + n) x (reverse (take n (drop i ns))) e
          (omega (arith, length-take n (drop i ns), length-reverse (take n (drop i ns)))))

  collect-final :
      (first fin : ℕ) (backwards : Bool) {slice : List ℕ}
      → first ≤ fin
      → fin < length ns
      → take (fin + 1 - first) (drop first ns) ≡ slice
      → (if backwards
          then collect_down l (fin + 1) (fin + 1 - first)
          else collect_up l first (fin + 1 - first))
        ≡ counted (if backwards then reverse slice else slice)
  collect-final first fin true h b e =
      let s : first + (fin + 1 - first) ≡ fin + 1 = omega arith in
      (rw s at (collect_down-take first (fin + 1 - first) (omega arith)))
      ∙ ap (λ (r : List ℕ). counted (reverse r)) e
  collect-final first fin false h b e =
      collect_up-take first (fin + 1 - first) (omega arith) ∙ ap (λ (r : List ℕ). counted r) e

  -- `range_by_rank` returns the nodes from the first rank to the last in order, as far as there are such,
  -- or in the reverse order, with their number.
  pub range_by_rank-take :
      (first last : ℕ) (backwards : Bool)
      → first ≤ last
      → range_by_rank l first last backwards ≡ (
          let slice = take (suc last - first) (drop first ns) in
          counted (if backwards then reverse slice else slice))
  unfolding range_by_rank
  range_by_rank-take first last backwards order = elim (Bool-cases (leb l.length first)) [
    | inl t ↦
        let g : (ltb last first || leb l.length first) ≡ true = ground arith in
        let d = drop_all first ns (ground (arith, rep.counted)) in
        let n : take {A = ℕ} (suc last - first) [] ≡ [] =
          take_all (suc last - first) [] (omega arith) in
        rw (g, d, n) (nothing backwards)
    | inr t ↦
        let g : (ltb last first || leb l.length first) ≡ false = ground arith in
        let c : first < length ns = ground (arith, rep.counted) in
        rw g (elim (Bool-cases (leb l.length last)) [
          | inl u ↦
              let f : sub_long l.length 1 ≡ l.length - 1 =
                sub_long-one l.length (omega (arith, rep.counted)) small in
              let b : l.length ≤ last = ground arith in
              rw (u, f)
                (collect-final first (l.length - 1) backwards (omega (arith, rep.counted))
                  (omega (arith, rep.counted))
                  (take_all (l.length - 1 + 1 - first) (drop first ns)
                      (omega (arith, length-drop first ns, rep.counted))
                    ∙ sym (
                        take_all (suc last - first) (drop first ns)
                          (omega (arith, length-drop first ns, rep.counted)))))
          | inr u ↦
              let b : last < length ns = ground (arith, rep.counted) in
              let w : last + 1 - first ≡ suc last - first = omega arith in
              rw u (collect-final first last backwards order b (rw w refl))
        ])
  ]
