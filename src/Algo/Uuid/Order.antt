-- ===== src/Algo/Uuid/Order.antt =====
-- hj/algo/uuid.hpp: what one part of a call does to the time and number.
use Prim.Native.Nat.{bit_and, bit_or}
use high_jump.Common.{
  ℕ, ◌+◌, ◌-◌, ◌*◌, ◌%◌, ◌^◌, ◌<◌, ◌≤◌, ◌≡◌, refl, Option, none, some, List, [], ◌∷◌, ltb, leb,
  ◌==◌, ==_iff, Bool-cases, inl, inr, All, arith,
}
use high_jump.Common.Bits.{and_mask, or_high}
use high_jump.Algo.Uuid.{
  SnowflakeEngine, max_worker_id, seqmask, epoch, wait_next_millis, make_id, Outcome, issued,
  refused, sleeping, waiting, max_backward_ms, stamp, stamp_next, finish_id, next_id, finish_late,
  wake_up,
}

-- From the epoch on, for the 2 ^ 42 milliseconds that an identifier has room for.
abbrev pub InRange : ℕ → Type 0
InRange t = (epoch ≤ t) × (t < epoch + 2 ^ 42)

pub record IsValid (e : SnowflakeEngine) : Type 0 where
  pub worker : e.worker_id ≤ max_worker_id
  pub small : e.seq ≤ seqmask

-- The identifier with its three parts in their places.
abbrev pub parts : SnowflakeEngine → ℕ
parts e = (e.last_timestamp - epoch) * 2 ^ 22 + e.worker_id * 2 ^ 12 + e.seq

pub make_id-parts :
    (e : SnowflakeEngine) → IsValid e → InRange e.last_timestamp → make_id e ≡ parts e
unfolding make_id
make_id-parts e v r =
    let d : ℕ = e.last_timestamp - epoch in
    let high : (e.last_timestamp + 2 ^ 64 - epoch) % 2 ^ 64 * 2 ^ 22 % 2 ^ 64 ≡ d * 2 ^ 22 =
      omega (arith, r.0, r.1) in
    let w : ℕ = e.worker_id * 2 ^ 12 % 2 ^ 64 in
    let m : ℕ = bit_or ((e.last_timestamp + 2 ^ 64 - epoch) % 2 ^ 64 * 2 ^ 22 % 2 ^ 64) w in
    let mid : m ≡ (d * 2 ^ 10 + e.worker_id) * 2 ^ 12 = omega (
      arith,
      v.worker,
      high,
      or_high 22 d ((e.last_timestamp + 2 ^ 64 - epoch) % 2 ^ 64 * 2 ^ 22 % 2 ^ 64) w high
          (omega (arith, v.worker)),
    ) in
    omega
      (arith, v.small, or_high 12 (d * 2 ^ 10 + e.worker_id) m e.seq mid (omega (arith, v.small)))

-- The order of the states: by time, then by number.
abbrev pub key : SnowflakeEngine → ℕ
key e = e.last_timestamp * 2 ^ 12 + e.seq

-- What an issued identifier comes with.
pub record Issued (e : SnowflakeEngine) (id : ℕ) (e' : SnowflakeEngine) : Type 0 where
  pub same_worker : e'.worker_id ≡ e.worker_id
  pub valid : IsValid e'
  pub in_range : InRange e'.last_timestamp
  pub later : key e < key e'
  pub made : id ≡ make_id e'

abbrev pub Good : SnowflakeEngine → Outcome → Type 0
Good e (issued id e') = Issued e id e'
Good e refused = Unit
Good e sleeping = Unit
Good e waiting = Unit

stamp-Good :
    (e : SnowflakeEngine) (seq t : ℕ)
    → IsValid e
    → InRange t
    → seq ≤ seqmask
    → key e < t * 2 ^ 12 + seq
    → Good e (stamp e seq t)
unfolding stamp
stamp-Good e seq t v r s later = record {
  same_worker = refl;
  valid = record { worker = v.worker; small = s };
  in_range = r;
  later = later;
  made = refl;
}

abbrev Late : ℕ → Option ℕ → Type 0
Late last none = Unit
Late last (some t) = (last < t) × InRange t

wait_next_millis-Late :
    (last : ℕ) (clock : List ℕ) → All InRange clock → Late last (wait_next_millis last clock)
unfolding wait_next_millis
wait_next_millis-Late last [] rs = tt
wait_next_millis-Late last (u ∷ clock) (r, rs) = elim (Bool-cases (leb u last)) [
  | inl early ↦ rw early (wait_next_millis-Late last clock rs)
  | inr late ↦ rw late (ground arith, r)
]

stamp_next-Good :
    (e : SnowflakeEngine) (o : Option ℕ)
    → IsValid e
    → Late e.last_timestamp o
    → Good e (stamp_next e o)
unfolding stamp_next
stamp_next-Good e none v l = tt
stamp_next-Good e (some t) v l = stamp-Good e 0 t v l.1 (omega arith) (omega (arith, v.small, l.0))

finish_id-Good :
    (e : SnowflakeEngine) (t : ℕ) (clock : List ℕ)
    → IsValid e
    → e.last_timestamp ≤ t
    → InRange t
    → All InRange clock
    → Good e (finish_id e t clock)
unfolding finish_id
finish_id-Good e t clock v h r rs =
    let seq : ℕ = bit_and (e.seq + 1) seqmask in
    let wrapped : seq ≡ (e.seq + 1) % 2 ^ 12 = and_mask 12 (e.seq + 1) in
    elim (Bool-cases (t == e.last_timestamp)) [
      | inl same ↦
          let now : t ≡ e.last_timestamp = (==_iff t e.last_timestamp).0 same in
          elim (Bool-cases (seq == 0)) [
            | inl full ↦
                rw (same, full)
                  (stamp_next-Good e (wait_next_millis e.last_timestamp clock) v
                    (wait_next_millis-Late e.last_timestamp clock rs))
            | inr free ↦
                let counted : seq ≡ e.seq + 1 = ground (arith, wrapped, v.small) in
                rw (same, free)
                  (stamp-Good e seq t v r (omega (arith, wrapped)) (omega (arith, counted)))
          ]
      | inr later ↦
          let past : e.last_timestamp < t = ground arith in
          rw later (stamp-Good e 0 t v r (omega arith) (omega (arith, v.small)))
    ]

pub next_id-Good :
    (e : SnowflakeEngine) (clock : List ℕ)
    → IsValid e
    → All InRange clock
    → Good e (next_id e clock)
unfolding next_id
next_id-Good e [] v rs = tt
next_id-Good e (t ∷ clock) v (r, rs) = elim (Bool-cases (ltb t e.last_timestamp)) [
  | inl back ↦ elim (Bool-cases (ltb max_backward_ms (e.last_timestamp - t))) [
    | inl far ↦ rw (back, far) tt
    | inr near ↦ rw (back, near) tt
  ]
  | inr on ↦ rw on (finish_id-Good e t clock v (ground arith) r rs)
]

finish_late-Good :
    (e : SnowflakeEngine) (o : Option ℕ)
    → IsValid e
    → Late e.last_timestamp o
    → Good e (finish_late e o)
unfolding finish_late
finish_late-Good e none v l = tt
finish_late-Good e (some t) v l = finish_id-Good e t [] v (omega (arith, l.0)) l.1 tt

pub wake_up-Good :
    (e : SnowflakeEngine) (clock : List ℕ)
    → IsValid e
    → All InRange clock
    → Good e (wake_up e clock)
unfolding wake_up
wake_up-Good e [] v rs = tt
wake_up-Good e (t ∷ clock) v (r, rs) = elim (Bool-cases (ltb t e.last_timestamp)) [
  | inl back ↦ rw back (
      finish_late-Good e (wait_next_millis e.last_timestamp clock) v
        (wait_next_millis-Late e.last_timestamp clock rs))
  | inr on ↦ rw on (finish_id-Good e t clock v (ground arith) r rs)
]
