-- ===== src/Algo/Skiplist/Delete/RankRange.antt =====
-- hj/algo/skiplist.hpp: `delete_range_by_rank`.
use high_jump.Common.{
  ℕ, suc, ◌+◌, ◌-◌, ◌^◌, ◌<◌, ◌≤◌, ◌≡◌, refl, sym, ap, ◌∙◌, true, false, Bool-cases, inl, inr, List,
  [], ◌∷◌, ◌++◌, length, arith, length-append, append-nil, take, drop, take_all, drop_all, drop_nil,
  drop-drop, take-append-drop, length-take, length-drop, leb, ltb, if◌then◌else◌, ◌||◌,
}
use high_jump.Algo.Skiplist.{Skiplist, add_long, sub_long}
use high_jump.Algo.Skiplist.Delete.{delete_range_by_rank, rank_path}
use high_jump.Algo.Skiplist.Walk.{GoesOn, Stops, add_long-below}
use high_jump.Algo.Skiplist.Represents.{Represents}
use high_jump.Algo.Skiplist.Delete.Steps.{sub_long-one}
use high_jump.Algo.Skiplist.Delete.Range.{left_by, Removed, range-Removed}

GoesOn-up_to :
    (first k : ℕ) (ms : List ℕ) → k + length ms ≤ first → GoesOn (λ y r. leb r first) k ms
GoesOn-up_to first k [] h = tt
GoesOn-up_to first k (m ∷ ms) h = (ground arith, GoesOn-up_to first (suc k) ms (omega arith))

Stops-behind : (first k : ℕ) (ms : List ℕ) → first ≤ k → Stops (λ y r. leb r first) k ms
Stops-behind first k [] h = tt
Stops-behind first k (m ∷ ms) h = (ground arith, Stops-behind first (suc k) ms (omega arith))

-- The loop leaves what stands behind the last rank.
left_by-drop :
    (first final n : ℕ) (ms : List ℕ)
    → first + n + length ms < 2 ^ 64
    → left_by (λ x c. leb (add_long first c) final) n ms ≡ drop (suc final - (first + n)) ms
unfolding left_by
left_by-drop first final n [] h = sym (drop_nil (suc final - (first + n)))
left_by-drop first final n (m ∷ ms) h =
    let e : add_long first n ≡ first + n = add_long-below first n (omega arith) in
    elim (Bool-cases (leb (first + n) final)) [
      | inl t ↦
          let c : first + n ≤ final = ground arith in
          let d : suc final - (first + n) ≡ suc (suc final - (first + suc n)) = omega arith in
          rw (e, t, d) (left_by-drop first final (suc n) ms (omega arith))
      | inr t ↦
          let c : final < first + n = ground arith in
          let d : suc final - (first + n) ≡ 0 = omega arith in rw (e, t, d) refl
    ]

module _ {ℓ} {K : Type ℓ} (l : Skiplist K) (first last : ℕ) where
  abbrev final : ℕ
  final = if leb l.length last then sub_long l.length 1 else last

  delete_range_by_rank-split :
      (pre post : List ℕ)
      → Represents l (pre ++ post)
      → l.length < 2 ^ 64
      → length pre ≡ first
      → first < l.length
      → first ≤ last
      → Represents
          (delete_range_by_rank l first last).1
          (pre ++ drop (suc final - (first + 0)) post)
        × ((delete_range_by_rank l first last).0 + length (drop (suc final - (first + 0)) post)
            ≡ length post)
  unfolding delete_range_by_rank rank_path Removed
  delete_range_by_rank-split pre post rep small at inside order =
      let e =
        left_by-drop first final 0 post (omega (arith, rep.counted, length-append pre post)) in
      let g : (ltb last first || leb l.length first) ≡ false = ground arith in
      let z : 0 + length post ≡ length post = omega arith in
      let (r, k, c) =
        range-Removed l pre post rep small (λ y r. leb r first) (rank_path l first) (λ i. refl)
          (GoesOn-up_to first 0 pre (omega arith))
          (Stops-behind first (length pre) post (omega arith))
          (λ x n. leb (add_long first n) final) in
      rw g (rw e at r, rw (z, e) at c)

  last_drop :
      (ns : List ℕ)
      → Represents l ns
      → l.length < 2 ^ 64
      → first ≤ last
      → first < length ns
      → drop (suc final - (first + 0)) (drop first ns) ≡ drop (suc last) ns
  last_drop ns rep small order c = elim (Bool-cases (leb l.length last)) [
    | inl t ↦
        let f : sub_long l.length 1 ≡ l.length - 1 =
          sub_long-one l.length (omega (arith, rep.counted)) small in
        let b : l.length ≤ last = ground arith in
        let w : first + (suc (l.length - 1) - (first + 0)) ≡ length ns =
          omega (arith, rep.counted) in
        rw (t, f, drop-drop (suc (l.length - 1) - (first + 0)) first ns, w)
          (drop_all (length ns) ns (omega arith)
            ∙ sym (drop_all (suc last) ns (omega (arith, rep.counted))))
    | inr t ↦
        let w : first + (suc last - (first + 0)) ≡ suc last = omega arith in
        rw (t, drop-drop (suc last - (first + 0)) first ns, w) refl
  ]

  -- `delete_range_by_rank` removes the nodes from the first rank to the last, as far as there are
  -- such, and returns how many they were.
  pub delete_range_by_rank-drop :
      (ns : List ℕ)
      → Represents l ns
      → l.length < 2 ^ 64
      → first ≤ last
      → Represents (delete_range_by_rank l first last).1 (take first ns ++ drop (suc last) ns)
        × ((delete_range_by_rank l first last).0 + length (take first ns ++ drop (suc last) ns)
            ≡ length ns)
  unfolding delete_range_by_rank
  delete_range_by_rank-drop ns rep small order = elim (Bool-cases (leb l.length first)) [
    | inl t ↦
        let c : length ns ≤ first = ground (arith, rep.counted) in
        let g : (ltb last first || leb l.length first) ≡ true = ground arith in
        rw (g, take_all first ns c, drop_all (suc last) ns (omega arith), append-nil ns)
          (rep, omega arith)
    | inr t ↦
        let c : first < length ns = ground (arith, rep.counted) in
        let e = take-append-drop first ns in
        let a : length (take first ns) ≡ first = omega (arith, length-take first ns) in
        let (r, n) =
          delete_range_by_rank-split (take first ns) (drop first ns) (rw e rep) small a
            (ground arith) order in
        let d : drop (suc final - (first + 0)) (drop first ns) ≡ drop (suc last) ns =
          last_drop ns rep small order c in
        (
          rw d at r,
          omega (
            arith,
            n,
            ap length d,
            a,
            length-append (take first ns) (drop (suc last) ns),
            length-drop first ns,
          ),
        )
  ]
