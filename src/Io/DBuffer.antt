-- ===== src/Io/DBuffer.antt =====
-- hj/io/dbuffer.hpp: two containers, one to write to and one to read from, that a write exchanges. A
-- pointer to one of them is a Bool, `false` for `_back_data` and `true` for `_front_data`; `copy` is
-- the function given to the constructor, with its result and the new content of its target.
pub mod Writes
mod Tests
use high_jump.Common.{Bool, true, false, List, [], ◌∷◌, if◌then◌else◌}

pub record DBuffer {ℓ} (A : Type ℓ) : Type ℓ where
  pub back_data : A
  pub front_data : A
  pub back : Bool
  pub front : Bool

pub construct {ℓ} : {A : Type ℓ} → A → DBuffer A
construct bare = record { back_data = bare; front_data = bare; back = false; front = true }

module _ {ℓ} {A : Type ℓ} where
  pub content : DBuffer A → Bool → A
  content d at = if at then d.front_data else d.back_data

  pub store : DBuffer A → Bool → A → DBuffer A
  store d at v = if at then record d { front_data = v } else record d { back_data = v }

  pub swap : DBuffer A → DBuffer A
  swap d = record d { front = d.back; back = d.front }

  pub write : (A → A → Bool × A) → A → DBuffer A → Bool × DBuffer A
  unfolding content store swap
  write copy v d =
      let r = copy v (content d d.back) in
      let written = store d d.back r.1 in if r.0 then (true, swap written) else (false, written)

  -- `write` of a value to move.
  pub write_move : A → DBuffer A → Bool × DBuffer A
  unfolding store swap
  write_move v d = (true, swap (store d d.back v))

  pub read : (A → A → Bool × A) → DBuffer A → A → Bool × A
  unfolding content
  read copy d target = copy (content d d.front) target

  pub writes : (A → A → Bool × A) → DBuffer A → List A → DBuffer A
  unfolding write
  writes copy d [] = d
  writes copy d (v ∷ vs) = writes copy (write copy v d).1 vs

-- `_default_copy`, where the assignment throws nothing.
pub default_copy {ℓ} : {A : Type ℓ} → A → A → Bool × A
default_copy src dst = (true, src)
