-- ===== src/Io/ChainBuffer.antt =====
-- hj/io/chain_buffer.hpp: a byte queue kept as a chain of blocks.
pub mod Contents
pub mod Blocks
pub mod Append
pub mod Read
pub mod Consume
pub mod Merge
mod Tests
use high_jump.Common.{
  ℕ, zero, suc, ◌+◌, ◌-◌, ◌*◌, ◌^◌, ◌%◌, min, Bool, true, false, ◌&&◌, ◌||◌, Option, none, some,
  List, [], ◌∷◌, ◌++◌, ltb, leb, ◌==◌, if◌then◌else◌, length, take, drop,
}
use mathlib.Core.Option

infixl 5 ◌>>=◌
abbrev ◌>>=◌ {ℓ κ} : {A : Type ℓ} {B : Type κ} → Option A → (A → Option B) → Option B
none >>= f = none
some a >>= f = f a

-- `size_t` arithmetic wraps at 2 ^ 64.
abbrev pub size_mod : ℕ
size_mod = 2 ^ 64

pub add_size : ℕ → ℕ → ℕ
add_size a b = (a + b) % size_mod

pub sub_size : ℕ → ℕ → ℕ
sub_size a b = (a + size_mod - b) % size_mod

-- A block is the bytes it holds; its reserved capacity is not observable.
pub record ChainBuffer : Type 0 where
  pub block_size : ℕ
  pub blocks : List (List ℕ)
  pub total_size : ℕ
  pub read_pos : ℕ
  pub read_block : ℕ

abbrev pub default_block_size : ℕ
default_block_size = 4096

pub init : ℕ → ChainBuffer
init n = record { block_size = n; blocks = [] ∷ []; total_size = 0; read_pos = 0; read_block = 0 }

pub size : ChainBuffer → ℕ
size b = b.total_size

pub empty : ChainBuffer → Bool
empty b = b.total_size == 0

pub clear : ChainBuffer → ChainBuffer
clear b = record b { blocks = [] ∷ []; total_size = 0; read_pos = 0; read_block = 0 }

-- `_blocks.back()`; the code never asks for it on an empty chain.
pub back : List (List ℕ) → List ℕ
back [] = []
back (b ∷ []) = b
back (b ∷ c ∷ bs) = back (c ∷ bs)

-- `_blocks.back().insert(end, p, p + n)`.
pub insert_back : List (List ℕ) → List ℕ → List (List ℕ)
insert_back [] p = []
insert_back (b ∷ []) p = (b ++ p) ∷ []
insert_back (b ∷ c ∷ bs) p = b ∷ insert_back (c ∷ bs) p

pub is_empty : List (List ℕ) → Bool
is_empty [] = true
is_empty (b ∷ bs) = false

pub is_empty_block : List ℕ → Bool
is_empty_block [] = true
is_empty_block (x ∷ b) = false

-- The new block that a round of `append` opens when the last one is full.
pub open_block : ℕ → List (List ℕ) → List (List ℕ)
open_block n bs = if is_empty bs || (length (back bs) == n) then bs ++ ([] ∷ []) else bs

-- One round: the bytes that fit go to the last block.
pub to_copy : ℕ → List (List ℕ) → List ℕ → ℕ
to_copy n bs p = min (sub_size n (length (back bs))) (length p)

-- The bytes that one round copies out of `p`.
pub round_size : ChainBuffer → List ℕ → ℕ
unfolding to_copy open_block
round_size b p = to_copy b.block_size (open_block b.block_size b.blocks) p

pub copy_round : ChainBuffer → List ℕ → ChainBuffer
copy_round b p = record b {
  blocks = insert_back (open_block b.block_size b.blocks) (take (round_size b p) p);
  total_size = add_size b.total_size (round_size b p);
}

-- The loop of `append(data, len)`; `p` is what is left of the data. `none`: out of fuel.
pub append_loop : ℕ → ChainBuffer → List ℕ → Option ChainBuffer
append_loop fuel b [] = some b
append_loop zero b (x ∷ p) = none
append_loop (suc fuel) b (x ∷ p) =
    append_loop fuel (copy_round b (x ∷ p)) (drop (round_size b (x ∷ p)) (x ∷ p))

-- Every round copies a byte at least, so `len` rounds are enough.
pub append : ChainBuffer → List ℕ → Option ChainBuffer
append b p = append_loop (length p) b p

-- The test of `append(other)` for a buffer that was never written.
pub is_fresh : ChainBuffer → Bool
is_fresh b =
    b.read_block == 0 && b.read_pos == 0 && length b.blocks == 1 && is_empty_block (back b.blocks)

-- The range loop over the blocks of the other buffer.
pub append_blocks : ChainBuffer → List (List ℕ) → Option ChainBuffer
append_blocks b [] = some b
append_blocks b ([] ∷ bs) = append_blocks b bs
append_blocks b ((x ∷ p) ∷ bs) = append b (x ∷ p) >>= λ b'. append_blocks b' bs

-- `append(other)` for two distinct buffers: the new states of both.
pub append_other : ChainBuffer → ChainBuffer → Option (ChainBuffer × ChainBuffer)
append_other b o = if empty o then some (b, o) else (do
  b' ← if is_fresh b then some (record b { blocks = o.blocks }) else append_blocks b o.blocks
  some (record b' { total_size = add_size b'.total_size o.total_size }, clear o))

-- The loop of `read`: `bs` are the blocks from `blk_idx` on, and the result is what is copied out.
pub read_loop : ℕ → List (List ℕ) → ℕ → ℕ → Option (List ℕ)
read_loop fuel bs pos zero = some []
read_loop zero bs pos (suc len) = none
read_loop (suc fuel) [] pos (suc len) = some []
read_loop (suc fuel) (blk ∷ bs) pos (suc len) =
    let next = read_loop fuel bs 0 (suc len) in
    let n = min (length blk - pos) (suc len) in
    let more = read_loop fuel (blk ∷ bs) (pos + n) (suc len - n) in
    if leb (length blk) pos then next else Option.map (◌++◌ (take n (drop pos blk))) more

-- A block takes two rounds at most: one that copies and one that moves on.
pub read : ChainBuffer → ℕ → Option (List ℕ)
read b len = let bs = drop b.read_block b.blocks in read_loop (2 * length bs + 1) bs b.read_pos len

-- How the loop of `consume` ends: by the early return inside a block, or by its test.
pub data Consumed : Type 0 where
  inside : (read_pos read_block total consumed : ℕ) → Consumed
  past : (read_pos read_block total consumed : ℕ) → Consumed
  -- `_blocks[_read_block]` out of range, which C++ leaves undefined.
  fault : Consumed

-- `bs` are the blocks from `_read_block` on.
pub consume_loop : List (List ℕ) → ℕ → ℕ → ℕ → ℕ → ℕ → Consumed
consume_loop bs pos blk total consumed zero = past pos blk total consumed
consume_loop [] pos blk total consumed (suc len) = fault
consume_loop (b ∷ bs) pos blk total consumed (suc len) =
    let avail = sub_size (length b) pos in
    let next =
      consume_loop bs 0 (blk + 1) (sub_size total avail) (consumed + avail) (suc len - avail) in
    if ltb (suc len) avail
    then inside (pos + suc len) blk (sub_size total (suc len)) (consumed + suc len)
    else next

-- After the loop the blocks that were read are erased.
pub finish : ChainBuffer → Consumed → Option (ℕ × ChainBuffer)
finish b (inside pos blk total n) =
    some (n, record b { total_size = total; read_pos = pos; read_block = blk })
finish b (past pos blk total n) =
    some (
      n,
      record b { blocks = drop blk b.blocks; total_size = total; read_pos = pos; read_block = 0 },
    )
finish b fault = none

-- `consume(len)` with its result; on an empty chain the loop is not entered.
pub consume : ChainBuffer → ℕ → Option (ℕ × ChainBuffer)
consume b len =
    let n = if ltb len b.total_size then len else b.total_size in
    if is_empty b.blocks
    then finish b (past b.read_pos b.read_block b.total_size 0)
    else finish b
        (consume_loop (drop b.read_block b.blocks) b.read_pos b.read_block b.total_size 0 n)
