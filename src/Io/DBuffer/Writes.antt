-- ===== src/Io/DBuffer/Writes.antt =====
-- hj/io/dbuffer.hpp: what a reader sees of the writes before it, and of those meanwhile.
use high_jump.Common.{
  ◌≡◌, refl, sym, ap, ◌∙◌, Bool, true, false, not, Bool-cases, inl, inr, List, [], ◌∷◌,
  if◌then◌else◌, arith,
}
use high_jump.Io.DBuffer.{DBuffer, content, store, swap, write, writes}

module _ {ℓ} {A : Type ℓ} (copy : A → A → Bool × A) (accepts : A → Bool)
    (result : (v o : A) → (copy v o).0 ≡ accepts v)
    (copied : (v o : A) → accepts v ≡ true → (copy v o).1 ≡ v) where
  -- The last of some values that is accepted.
  unfoldable pub last_accepted : A → List A → A
  last_accepted a [] = a
  last_accepted a (v ∷ vs) = last_accepted (if accepts v then v else a) vs

  -- The two pointers are to different containers.
  abbrev pub Apart : DBuffer A → Type 0
  Apart d = d.back ≡ not d.front

  write-accepted :
      (v : A) (d : DBuffer A) → accepts v ≡ true → write copy v d ≡ (true, swap (store d d.back v))
  unfolding write
  write-accepted v d h = rw (result v (content d d.back), h, copied v (content d d.back) h) refl

  write-refused :
      (v : A) (d : DBuffer A)
      → accepts v ≡ false
      → write copy v d ≡ (false, store d d.back (copy v (content d d.back)).1)
  unfolding write
  write-refused v d h = rw (result v (content d d.back), h) refl

  store-front :
      (d : DBuffer A) (v : A)
      → Apart d
      → content (store d d.back v) (store d d.back v).front ≡ content d d.front
  unfolding content store
  store-front d v h = ground arith

  store-Apart : (d : DBuffer A) (v : A) → Apart d → Apart (store d d.back v)
  unfolding store
  store-Apart d v h = ground arith

  swap-front :
      (d : DBuffer A) (v : A)
      → content (swap (store d d.back v)) (swap (store d d.back v)).front ≡ v
  unfolding content store swap
  swap-front d v = ground arith

  swap-Apart : (d : DBuffer A) (v : A) → Apart d → Apart (swap (store d d.back v))
  unfolding store swap
  swap-Apart d v h = ground arith

  swap-back : (d : DBuffer A) (v : A) → (swap (store d d.back v)).back ≡ d.front
  unfolding store swap
  swap-back d v = ground arith

  swap-content : (d : DBuffer A) (v : A) → content (swap (store d d.back v)) d.back ≡ v
  unfolding content store swap
  swap-content d v = ground arith

  writes-cons :
      (d : DBuffer A) (v : A) (vs : List A)
      → writes copy d (v ∷ vs) ≡ writes copy (write copy v d).1 vs
  unfolding writes
  writes-cons d v vs = refl

  writes-accepted :
      (d : DBuffer A) (v : A) (vs : List A)
      → accepts v ≡ true
      → writes copy d (v ∷ vs) ≡ writes copy (swap (store d d.back v)) vs
  writes-accepted d v vs h =
      writes-cons d v vs ∙ ap (λ (r : Bool × DBuffer A). writes copy r.1 vs) (write-accepted v d h)

  writes-refused :
      (d : DBuffer A) (v : A) (vs : List A)
      → accepts v ≡ false
      → writes copy d (v ∷ vs) ≡ writes copy (store d d.back (copy v (content d d.back)).1) vs
  writes-refused d v vs h =
      writes-cons d v vs ∙ ap (λ (r : Bool × DBuffer A). writes copy r.1 vs) (write-refused v d h)

  -- With one thread, the container to read from holds the last value that was accepted, and stays another
  -- one than the container to write to.
  pub writes-last_accepted :
      (d : DBuffer A) (vs : List A)
      → Apart d
      → (content (writes copy d vs) (writes copy d vs).front ≡ last_accepted (content d d.front) vs)
        × Apart (writes copy d vs)
  unfolding writes last_accepted
  writes-last_accepted d [] h = (refl, h)
  writes-last_accepted d (v ∷ vs) h = elim (Bool-cases (accepts v)) [
    | inl t ↦
        let e = swap-front d v in
        rw (writes-accepted d v vs t, t)
          (rw e at (writes-last_accepted (swap (store d d.back v)) vs (swap-Apart d v h)))
    | inr t ↦
        let o = (copy v (content d d.back)).1 in
        let e = store-front d o h in
        rw (writes-refused d v vs t, t)
          (rw e at (writes-last_accepted (store d d.back o) vs (store-Apart d o h)))
  ]

  nothing_more : (d : DBuffer A) → writes copy d [] ≡ d
  unfolding writes
  nothing_more d = refl

  -- The second of two accepted writes goes to the container that was to be read from before them: a
  -- reader that has loaded that pointer and still copies meets the second value.
  pub second_write_hits_reader :
      (d : DBuffer A) (v w : A)
      → accepts v ≡ true
      → accepts w ≡ true
      → content (writes copy d (v ∷ w ∷ [])) d.front ≡ w
  second_write_hits_reader d v w hv hw =
      let n = swap (store d d.back v) in
      let e : d.front ≡ n.back = sym (swap-back d v) in
      let r = writes-accepted d v (w ∷ []) hv ∙ writes-accepted n w [] hw in
      ap (λ (m : DBuffer A). content m d.front) (r ∙ nothing_more (swap (store n n.back w)))
      ∙ ap (content (swap (store n n.back w))) e
      ∙ swap-content n w
