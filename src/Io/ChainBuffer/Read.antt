-- ===== src/Io/ChainBuffer/Read.antt =====
-- hj/io/chain_buffer.hpp: `read` copies out and leaves the buffer as it is.
use high_jump.Common.{
  ℕ, zero, suc, ◌+◌, ◌-◌, ◌*◌, ◌≤◌, ◌<◌, ◌≡◌, refl, sym, ap, ◌∙◌, ◌⊎◌, inl, inr, min, Bool-cases,
  leb, some, List, [], ◌∷◌, ◌++◌, length, take, drop, arith, length-drop, drop_all, take-append,
  take-min,
}
use high_jump.Io.ChainBuffer.{ChainBuffer, read_loop, read}
use high_jump.Io.ChainBuffer.Contents.{flat, unread, contents, unread_start}

-- A block that is used up is skipped.
read_loop_skip :
    (fuel : ℕ) (blk : List ℕ) (bs : List (List ℕ)) (pos len : ℕ)
    → (len ≡ 0) ⊎ (length blk ≤ pos)
    → read_loop (suc fuel) (blk ∷ bs) pos len ≡ read_loop fuel bs 0 len
unfolding read_loop
read_loop_skip zero blk bs pos zero h = refl
read_loop_skip (suc fuel) blk bs pos zero h = refl
read_loop_skip fuel blk bs pos (suc len) h = ground arith

-- What a block gives, and what is left for the others.
take_block :
    (blk rest : List ℕ) (pos len : ℕ)
    → take (min (length blk - pos) len) (drop pos blk)
        ++ take (len - min (length blk - pos) len) rest
      ≡ take len (drop pos blk ++ rest)
take_block blk rest pos len =
    let e : length blk - pos ≡ length (drop pos blk) = sym (length-drop pos blk) in
    let same : len - min (length (drop pos blk)) len ≡ len - length (drop pos blk) = omega arith in
    rw (e, same, take-min len (drop pos blk)) (sym (take-append len (drop pos blk) rest))

read_loop-take :
    (bs : List (List ℕ)) (fuel pos len : ℕ)
    → 2 * length bs < fuel
    → read_loop fuel bs pos len ≡ some (take len (unread bs pos))
unfolding read_loop
read_loop-take bs fuel pos zero h = refl
read_loop-take [] zero pos (suc len) h = absurd (omega arith)
read_loop-take [] (suc fuel) pos (suc len) h = refl
read_loop-take (blk ∷ bs) zero pos (suc len) h = absurd (omega arith)
read_loop-take (blk ∷ bs) (suc zero) pos (suc len) h = absurd (omega arith)
read_loop-take (blk ∷ bs) (suc (suc fuel)) pos (suc len) h =
    elim (Bool-cases (leb (length blk) pos)) [
      | inl used ↦
          rw (used, drop_all pos blk (ground arith))
            (read_loop-take bs (suc fuel) 0 (suc len) (omega arith)
              ∙ ap (λ c. some (take (suc len) c)) (unread_start bs))
      | inr more ↦
          rw
            (
              more,
              read_loop_skip fuel blk bs (pos + min (length blk - pos) (suc len))
                  (suc len - min (length blk - pos) (suc len)) (ground arith),
              read_loop-take bs fuel 0 (suc len - min (length blk - pos) (suc len)) (omega arith),
              unread_start bs,
            )
            (ap some (take_block blk (flat bs) pos (suc len)))
    ]

-- `read(out, len)` ends, and copies the first `len` unread bytes, or all of them if there are fewer.
pub read-take : (b : ChainBuffer) (len : ℕ) → read b len ≡ some (take len (contents b))
unfolding read
read-take b len = read_loop-take (drop b.read_block b.blocks) _ b.read_pos len (omega arith)
