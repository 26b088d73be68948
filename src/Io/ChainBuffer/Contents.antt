-- ===== src/Io/ChainBuffer/Contents.antt =====
-- hj/io/chain_buffer.hpp: the bytes that a buffer stands for, and its invariant.
use high_jump.Common.{
  ℕ, zero, suc, ◌≤◌, ◌<◌, ◌≡◌, refl, List, [], ◌∷◌, ◌++◌, length, length-append, length-drop, drop,
  arith,
}
use high_jump.Io.ChainBuffer.{ChainBuffer, size_mod, init, back}

-- All bytes in memory, and those behind a cursor in the first block.
abbrev pub flat : List (List ℕ) → List ℕ
flat [] = []
flat (b ∷ bs) = b ++ flat bs

abbrev pub unread : List (List ℕ) → ℕ → List ℕ
unread [] pos = []
unread (b ∷ bs) pos = drop pos b ++ flat bs

-- The abstract value: the bytes that `read` would give, oldest first.
abbrev pub contents : ChainBuffer → List ℕ
contents b = unread (drop b.read_block b.blocks) b.read_pos

-- The cursor stands in a block of the chain, or at the start of an empty chain.
abbrev pub Cursor : List (List ℕ) → ℕ → ℕ → Type 0
Cursor [] blk pos = (blk ≡ 0) × (pos ≡ 0)
Cursor (b ∷ []) blk pos = (blk ≡ 0) × (pos ≤ length b)
Cursor (b ∷ c ∷ bs) zero pos = pos ≤ length b
Cursor (b ∷ c ∷ bs) (suc blk) pos = Cursor (c ∷ bs) blk pos

pub record IsValid (b : ChainBuffer) : Type 0 where
  pub sized : b.total_size ≡ length (contents b)
  pub cursor : Cursor b.blocks b.read_block b.read_pos
  pub fits : length (flat b.blocks) < size_mod

pub unread_start : (bs : List (List ℕ)) → unread bs 0 ≡ flat bs
unread_start [] = refl
unread_start (b ∷ bs) = refl

pub init-IsValid : (n : ℕ) → IsValid (init n)
unfolding init
init-IsValid n = record { sized = refl; cursor = (refl, omega arith); fits = omega arith }

pub back-le-flat : (bs : List (List ℕ)) → length (back bs) ≤ length (flat bs)
unfolding back
back-le-flat [] = omega arith
back-le-flat (b ∷ []) = omega (arith, length-append b [])
back-le-flat (b ∷ c ∷ bs) = omega (arith, length-append b (flat (c ∷ bs)), back-le-flat (c ∷ bs))

pub unread-le-flat : (bs : List (List ℕ)) (pos : ℕ) → length (unread bs pos) ≤ length (flat bs)
unread-le-flat [] pos = omega arith
unread-le-flat (b ∷ bs) pos =
    omega
      (arith, length-append b (flat bs), length-append (drop pos b) (flat bs), length-drop pos b)

pub drop-le-flat : (bs : List (List ℕ)) (n : ℕ) → length (flat (drop n bs)) ≤ length (flat bs)
drop-le-flat bs zero = omega arith
drop-le-flat [] (suc n) = omega arith
drop-le-flat (b ∷ bs) (suc n) = omega (arith, length-append b (flat bs), drop-le-flat bs n)

pub contents-le-flat : (b : ChainBuffer) → length (contents b) ≤ length (flat b.blocks)
contents-le-flat b = omega (
  arith,
  unread-le-flat (drop b.read_block b.blocks) b.read_pos,
  drop-le-flat b.blocks b.read_block,
)
