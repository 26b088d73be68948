-- ===== src/Algo/Skiplist/Query/Sound.antt =====
-- hj/algo/skiplist.hpp: what `validate` and `first_in_range` return.
use high_jump.Common.{
  ℕ, zero, suc, ◌+◌, ◌^◌, ◌<◌, ◌≡◌, refl, ap, ◌∙◌, Bool, true, false, not, Bool-cases, inl, inr,
  List, [], ◌∷◌, All, Option, none, some, length, arith, if◌then◌else◌, ◌&&◌, get_elem?, ◌==◌,
}
use high_jump.Algo.Skiplist.{Link, Skiplist, add_long}
use high_jump.Algo.Skiplist.Walk.{Linked, add_long-below}
use high_jump.Algo.Skiplist.Represents.{Represents, tall_at, All-map}
use high_jump.Algo.Skiplist.Rank.{forward-link_to}
use high_jump.Algo.Skiplist.Query.{validate_loop, validate}

-- The links on the lowest level, node by node.
abbrev Chained {ℓ} : {K : Type ℓ} → Skiplist K → List ℕ → Type 0
Chained l [] = Unit
Chained l (m ∷ ms) = ((l.link m 0).forward ≡ get_elem? ms 0) × Chained l ms

Chained-of_Linked {ℓ} :
    {K : Type ℓ} (l : Skiplist K) (ms : List ℕ)
    → Linked (tall_at l 0) (λ m. l.link m 0) ms
    → All (λ m. tall_at l 0 m ≡ true) ms
    → Chained l ms
Chained-of_Linked l [] ls h = tt
Chained-of_Linked l (m ∷ ms) (link, ls) (h, hs) = (
  ap (λ (c : Link). c.forward) (link h) ∙ forward-link_to (tall_at l 0) 0 ms hs,
  Chained-of_Linked l ms ls hs,
)

module _ {ℓ κ} {K : Type ℓ} {S : Type κ} (score : K → S) (score_lt : S → S → Bool)
    (l : Skiplist K) where
  abbrev score_of : ℕ → S
  score_of m = score (l.key m)

  -- No node has a smaller score than the one before it.
  unfoldable pub in_order : List ℕ → Bool
  in_order [] = true
  in_order (m ∷ ms) =
      let broken = elim (get_elem? ms 0) as (λ o. Bool) [
        | none ↦ false
        | some y ↦ score_lt (score_of y) (score_of m)
      ] in
      not broken && in_order ms

  validate_loop-in_order :
      (ms : List ℕ) (fuel seen : ℕ)
      → Chained l ms
      → length ms < fuel
      → seen + length ms < 2 ^ 64
      → validate_loop score score_lt l fuel (get_elem? ms 0) seen
        ≡ (if in_order ms then some (seen + length ms) else none)
  unfolding validate_loop in_order
  validate_loop-in_order [] zero seen c h b = absurd (omega arith)
  validate_loop-in_order [] (suc fuel) seen c h b =
      let z : seen + 0 ≡ seen = omega arith in rw z refl
  validate_loop-in_order (m ∷ []) zero seen c h b = absurd (omega arith)
  validate_loop-in_order (m ∷ []) (suc fuel) seen (c, cs) h b =
      let e : add_long seen 1 ≡ seen + 1 = add_long-below seen 1 (omega arith) in
      let z : seen + 1 + 0 ≡ seen + 1 = omega arith in
      rw (c, e)
        (validate_loop-in_order [] fuel (seen + 1) tt (omega arith) (omega arith) ∙ (rw z refl))
  validate_loop-in_order (m ∷ y ∷ ys) zero seen c h b = absurd (omega arith)
  validate_loop-in_order (m ∷ y ∷ ys) (suc fuel) seen (c, cs) h b =
      let e : add_long seen 1 ≡ seen + 1 = add_long-below seen 1 (omega arith) in
      let z : seen + 1 + suc (length ys) ≡ seen + suc (suc (length ys)) = omega arith in
      let rest = validate_loop-in_order (y ∷ ys) fuel (seen + 1) cs (omega arith) (omega arith) in
      elim (Bool-cases (score_lt (score_of y) (score_of m))) [
        | inl t ↦ rw (c, t) refl
        | inr t ↦ rw (c, t, e) (rest ∙ (rw z refl))
      ]

  validate-some :
      {n : ℕ}
      → validate_loop score score_lt l (suc l.length) (l.link 0 0).forward 0 ≡ some n
      → validate score score_lt l ≡ (n == l.length)
  unfolding validate
  validate-some e = rw (e, validate) refl

  validate-none :
      validate_loop score score_lt l (suc l.length) (l.link 0 0).forward 0 ≡ none
      → validate score score_lt l ≡ false
  unfolding validate
  validate-none e = rw (e, validate) refl

  -- `validate` holds exactly if no node has a smaller score than the one before it.
  pub validate-in_order :
      (ns : List ℕ)
      → Represents l ns
      → suc l.length < 2 ^ 64
      → validate score score_lt l ≡ in_order ns
  unfolding validate
  validate-in_order ns rep small =
      let tall : All (λ m. tall_at l 0 m ≡ true) ns =
        All-map ns (λ m b. ground arith) rep.heights in
      let first : (l.link 0 0).forward ≡ get_elem? ns 0 =
        ap (λ (c : Link). c.forward) (rep.header 0 rep.in_use)
        ∙ forward-link_to (tall_at l 0) 0 ns tall in
      let r =
        validate_loop-in_order ns (suc l.length) 0
          (Chained-of_Linked l ns (rep.nodes 0 rep.in_use) tall) (omega (arith, rep.counted))
          (omega (arith, rep.counted)) in
      let loop =
        ap (λ (o : Option ℕ). validate_loop score score_lt l (suc l.length) o 0) first ∙ r in
      elim (Bool-cases (in_order ns)) [
        | inl t ↦
            let e : (0 + length ns == l.length) ≡ true = ground (arith, rep.counted) in
            rw t (validate-some (rw t at loop) ∙ e)
        | inr t ↦ rw t (validate-none (rw t at loop))
      ]
