-- ===== src/Algo/Skiplist/Refines.antt =====
-- hj/algo/skiplist.hpp: the list as a sorted sequence of nodes.
use high_jump.Common.{ℕ, suc, ◌^◌, ◌<◌, ◌≤◌, ◌≡◌, refl, Bool, List, [], arith, ◌==◌, if◌then◌else◌}
use high_jump.Algo.Skiplist.{Skiplist, empty_list, insert, insert_at, max_level}
use high_jump.Algo.Skiplist.Walk.{link_to}
use high_jump.Algo.Skiplist.Order.{
  StrictWeak, Sorted, smaller, not_smaller, smaller-append, smaller-All, not_smaller-All, put,
  put-Sorted,
}
use high_jump.Algo.Skiplist.Represents.{Represents, All-map}
use high_jump.Algo.Skiplist.InsertKeeps.{insert-Represents}

-- The list `l` holds the nodes `ns`, in this order and sorted by their keys.
abbrev pub Holds {ℓ} : {K : Type ℓ} → (K → K → Bool) → Skiplist K → List ℕ → Type 0
Holds lt l ns = Represents l ns × Sorted lt l.key ns

-- A new list holds no node.
pub empty_list-Holds {ℓ} : {K : Type ℓ} (lt : K → K → Bool) (k : K) → Holds lt (empty_list k) []
unfolding empty_list link_to
empty_list-Holds lt k = (
  record {
    header = λ i h. refl;
    nodes = λ i h. tt;
    above = λ i h. refl;
    heights = tt;
    fresh = tt;
    distinct = tt;
    counted = refl;
    back = tt;
    last = refl;
    in_use = omega arith;
    limited = omega arith;
    started = omega arith;
  },
  tt,
)

-- `insert` puts one new node before the first whose key is not smaller, with links, spans, backward
-- links, tail, length and level in step, for any level that the random choice gives.
pub insert-Holds {ℓ} :
    {K : Type ℓ} (lt : K → K → Bool) (l : Skiplist K) (ns : List ℕ) (k : K) (random : ℕ)
    → StrictWeak lt
    → Holds lt l ns
    → suc l.length < 2 ^ 64
    → 0 < random
    → random ≤ max_level
    → Holds lt (insert lt l k random) (put lt l.key k l.next_node ns)
unfolding insert insert_at put
insert-Holds {K} lt l ns k random law (rep, sorted) small positive limit =
    let e = smaller-append lt l.key k ns in
    let key' : ℕ → K = λ n. if n == l.next_node then k else l.key n in
    let new : (if l.next_node == l.next_node then k else l.key l.next_node) ≡ k = ground arith in
    (
      insert-Represents lt l k random (smaller lt l.key k ns) (not_smaller lt l.key k ns) (rw e rep)
          small (smaller-All lt l.key k ns) (not_smaller-All lt l.key law k ns sorted) positive
          limit,
      rw new at (
          put-Sorted lt l.key key' law l.next_node ns
            (All-map {Q = λ y. key' y ≡ l.key y} ns (λ m b. ground arith) rep.fresh) sorted),
    )
