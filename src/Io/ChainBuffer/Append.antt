-- ===== src/Io/ChainBuffer/Append.antt =====
-- hj/io/chain_buffer.hpp: `append(data, len)` adds bytes at the end.
use high_jump.Common.{
  ℕ, zero, suc, ◌+◌, ◌≤◌, ◌<◌, ◌≡◌, ◌≢◌, refl, sym, ap, ◌∙◌, none, some, List, [], ◌∷◌, ◌++◌,
  length, length-append_take, length-drop, take, drop, take-append-drop, arith, append_assoc,
  append-nil,
}
use high_jump.Io.ChainBuffer.{
  ChainBuffer, size_mod, add_size, sub_size, back, insert_back, open_block, to_copy, round_size,
  copy_round, append_loop, append,
}
use high_jump.Io.ChainBuffer.Contents.{
  flat, contents, Cursor, IsValid, back-le-flat, contents-le-flat,
}
use high_jump.Io.ChainBuffer.Blocks.{
  open-Opened, flat-insert_back, insert_back-unread, insert_back-Cursor, back_open, back-insert_nil,
}

-- What holds of a buffer before a call that adds `p`.
pub record Accepts (b : ChainBuffer) (p : List ℕ) : Type 0 where
  pub valid : IsValid b
  pub blocks_pos : 0 < b.block_size
  pub blocks_lt : b.block_size < size_mod
  pub memory : length (flat b.blocks) + length p < size_mod

round_bounds :
    (b : ChainBuffer) (p : List ℕ)
    → Accepts b p
    → 0 < length p
    → (0 < round_size b p) × (round_size b p ≤ length p)
unfolding round_size to_copy sub_size
round_bounds b p a ne =
    let o = open-Opened b a.blocks_pos a.valid in
    ground (arith, o.room, ap length o.flat_same, back-le-flat (open_block b.block_size b.blocks))

flat_filled : (bs : List (List ℕ)) (p : List ℕ) → bs ≢ [] → flat (insert_back bs p) ≡ flat bs ++ p
flat_filled [] p ne = absurd (ne refl)
flat_filled (b ∷ bs) p ne = flat-insert_back b bs p

round-contents :
    (b : ChainBuffer) (p : List ℕ)
    → Accepts b p
    → contents (copy_round b p) ≡ contents b ++ take (round_size b p) p
unfolding copy_round
round-contents b p a =
    let o = open-Opened b a.blocks_pos a.valid in
    insert_back-unread (open_block b.block_size b.blocks) _ b.read_block b.read_pos o.some_block
      o.cursor
    ∙ ap (λ c. c ++ take (round_size b p) p) o.same

round-flat :
    (b : ChainBuffer) (p : List ℕ)
    → Accepts b p
    → flat (copy_round b p).blocks ≡ flat b.blocks ++ take (round_size b p) p
unfolding copy_round
round-flat b p a =
    let o = open-Opened b a.blocks_pos a.valid in
    flat_filled (open_block b.block_size b.blocks) _ o.some_block
    ∙ ap (λ c. c ++ take (round_size b p) p) o.flat_same

round-Cursor :
    (b : ChainBuffer) (p : List ℕ)
    → Accepts b p
    → Cursor (copy_round b p).blocks (copy_round b p).read_block (copy_round b p).read_pos
unfolding copy_round
round-Cursor b p a =
    insert_back-Cursor (open_block b.block_size b.blocks) _ b.read_block b.read_pos
      (open-Opened b a.blocks_pos a.valid).cursor

total-round :
    (b : ChainBuffer) (n : ℕ)
    → b.total_size ≡ length (contents b)
    → length (contents b) + n < size_mod
    → add_size b.total_size n ≡ length (contents b) + n
unfolding add_size
total-round b n e h = omega arith

round-Accepts :
    (b : ChainBuffer) (p : List ℕ)
    → Accepts b p
    → 0 < length p
    → Accepts (copy_round b p) (drop (round_size b p) p)
round-Accepts b p a ne = record {
  valid = record {
    sized = unfold copy_round in (total ∙ sym held);
    cursor = round-Cursor b p a;
    fits = omega (arith, in_memory, bounds);
  };
  blocks_pos = unfold copy_round in a.blocks_pos;
  blocks_lt = unfold copy_round in a.blocks_lt;
  memory = omega (arith, in_memory, bounds, length-drop (round_size b p) p);
}
  where
    bounds : (0 < round_size b p) × (round_size b p ≤ length p)
    bounds = round_bounds b p a ne

    held : length (contents (copy_round b p)) ≡ length (contents b) + round_size b p
    held = length-append_take (contents b) p (round_size b p) bounds.1 (round-contents b p a)

    in_memory : length (flat (copy_round b p).blocks) ≡ length (flat b.blocks) + round_size b p
    in_memory = length-append_take (flat b.blocks) p (round_size b p) bounds.1 (round-flat b p a)

    total : add_size b.total_size (round_size b p) ≡ length (contents b) + round_size b p
    total = total-round b (round_size b p) a.valid.sized (omega (arith, contents-le-flat b, bounds))

-- What a call that adds `p` leaves.
pub record Appended (b : ChainBuffer) (p : List ℕ) (b' : ChainBuffer) : Type 0 where
  pub valid : IsValid b'
  pub grown : contents b' ≡ contents b ++ p
  pub block_size_same : b'.block_size ≡ b.block_size
  pub memory : length (flat b'.blocks) ≡ length (flat b.blocks) + length p

pub Appended-nil : (b : ChainBuffer) → Accepts b [] → Appended b [] b
Appended-nil b a = record {
  valid = a.valid;
  grown = sym (append-nil (contents b));
  block_size_same = refl;
  memory = omega arith;
}

-- A round and what the other rounds add make up the whole.
Appended-round :
    (b b' : ChainBuffer) (p : List ℕ)
    → Accepts b p
    → 0 < length p
    → Appended (copy_round b p) (drop (round_size b p) p) b'
    → Appended b p b'
Appended-round b b' p a ne r = record {
  valid = r.valid;
  grown =
      r.grown
      ∙ ap (λ c. c ++ drop (round_size b p) p) (round-contents b p a)
      ∙ append_assoc (contents b) _ _
      ∙ ap (◌++◌ (contents b)) (take-append-drop (round_size b p) p);
  block_size_same = unfold copy_round in r.block_size_same;
  memory = omega (
    arith,
    r.memory,
    length-append_take (flat b.blocks) p (round_size b p) bounds.1 (round-flat b p a),
    length-drop (round_size b p) p,
    bounds,
  );
}
  where
    bounds : (0 < round_size b p) × (round_size b p ≤ length p)
    bounds = round_bounds b p a ne

append_loop-Appended :
    (fuel : ℕ) (b : ChainBuffer) (p : List ℕ)
    → Accepts b p
    → length p ≤ fuel
    → (b' : ChainBuffer) × (append_loop fuel b p ≡ some b') × Appended b p b'
unfolding append_loop
append_loop-Appended fuel b [] a h = (b, refl, Appended-nil b a)
append_loop-Appended zero b (x ∷ p) a h = absurd (omega arith)
append_loop-Appended (suc fuel) b (x ∷ p) a h =
    let q : List ℕ = x ∷ p in
    let (b', e, r) =
      append_loop-Appended fuel (copy_round b q) (drop (round_size b q) q)
        (round-Accepts b q a (omega arith))
        (omega (arith, round_bounds b q a (omega arith), length-drop (round_size b q) q)) in
    (b', e, Appended-round b b' q a (omega arith) r)

-- `append(data, len)` ends, and adds the bytes at the end of the contents; the invariant holds
-- again, so `size()` has grown by `len`. The block size must be positive, and both it and all
-- bytes in memory must fit `size_t`.
pub append-Appended :
    (b : ChainBuffer) (p : List ℕ)
    → Accepts b p
    → (b' : ChainBuffer) × (append b p ≡ some b') × Appended b p b'
unfolding append
append-Appended b p a = append_loop-Appended (length p) b p a (omega arith)

-- A buffer whose blocks can hold nothing, with an empty last block.
abbrev pub Blocked : ChainBuffer → Type 0
Blocked b = (b.block_size ≡ 0) × (back b.blocks ≡ [])

open-Blocked :
    (b : ChainBuffer) → Blocked b → open_block b.block_size b.blocks ≡ b.blocks ++ ([] ∷ [])
unfolding open_block
open-Blocked b (z, e) = rw (e, z) (ground arith)

round_size-Blocked : (b : ChainBuffer) (p : List ℕ) → Blocked b → round_size b p ≡ 0
unfolding round_size to_copy sub_size
round_size-Blocked b p h =
    omega (arith, h.0, ap length (ap back (open-Blocked b h) ∙ back_open b.blocks))

round-Blocked : (b : ChainBuffer) (p : List ℕ) → Blocked b → Blocked (copy_round b p)
unfolding copy_round
round-Blocked b p h =
    (h.0, rw (round_size-Blocked b p h, back-insert_nil, open-Blocked b h) (back_open b.blocks))

-- With a block size of 0 the loop of `append` never ends on data that is not empty: however many
-- rounds it is given, it has not finished.
pub append_loop-Blocked :
    (fuel : ℕ) (b : ChainBuffer) (x : ℕ) (p : List ℕ)
    → Blocked b
    → append_loop fuel b (x ∷ p) ≡ none
unfolding append_loop
append_loop-Blocked zero b x p h = refl
append_loop-Blocked (suc fuel) b x p h =
    rw (round_size-Blocked b (x ∷ p) h, append_loop)
      (append_loop-Blocked fuel (copy_round b (x ∷ p)) x p (round-Blocked b (x ∷ p) h))
