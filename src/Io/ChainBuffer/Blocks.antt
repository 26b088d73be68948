-- ===== src/Io/ChainBuffer/Blocks.antt =====
-- hj/io/chain_buffer.hpp: the last block of the chain, as `append` opens and fills it.
use high_jump.Common.{
  ℕ, zero, suc, ◌<◌, ◌≡◌, ◌≢◌, refl, ap, false, List, [], ◌∷◌, ◌++◌, length, length-append, drop,
  drop-append, arith, append_assoc, append-nil,
}
use high_jump.Io.ChainBuffer.{ChainBuffer, back, insert_back, is_empty, open_block}
use high_jump.Io.ChainBuffer.Contents.{flat, unread, contents, Cursor, IsValid}

flat_open : (bs : List (List ℕ)) → flat (bs ++ ([] ∷ [])) ≡ flat bs
flat_open [] = refl
flat_open (b ∷ bs) = rw (flat_open bs)

pub flat-insert_back :
    (b : List ℕ) (bs : List (List ℕ)) (p : List ℕ)
    → flat (insert_back (b ∷ bs) p) ≡ flat (b ∷ bs) ++ p
unfolding insert_back
flat-insert_back b [] p = simp append-nil
flat-insert_back b (c ∷ bs) p = simp (flat-insert_back c bs p, append_assoc)

-- A new empty block changes neither the bytes nor the cursor.
open-unread :
    (bs : List (List ℕ)) (blk pos : ℕ)
    → Cursor bs blk pos
    → unread (drop blk (bs ++ ([] ∷ []))) pos ≡ unread (drop blk bs) pos
open-unread [] zero pos h = rw h.1 refl
open-unread [] (suc blk) pos h = absurd (omega arith)
open-unread (b ∷ []) zero pos h = refl
open-unread (b ∷ []) (suc blk) pos h = absurd (omega arith)
open-unread (b ∷ c ∷ bs) zero pos h = rw (flat_open bs)
open-unread (b ∷ c ∷ bs) (suc blk) pos h = open-unread (c ∷ bs) blk pos h

open-Cursor :
    (bs : List (List ℕ)) (blk pos : ℕ) → Cursor bs blk pos → Cursor (bs ++ ([] ∷ [])) blk pos
open-Cursor [] blk pos h = omega arith
open-Cursor (b ∷ []) zero pos h = h.1
open-Cursor (b ∷ []) (suc blk) pos h = absurd (omega arith)
open-Cursor (b ∷ c ∷ bs) zero pos h = h
open-Cursor (b ∷ c ∷ bs) (suc blk) pos h = open-Cursor (c ∷ bs) blk pos h

-- Bytes written to the last block are the last bytes.
pub insert_back-unread :
    (bs : List (List ℕ)) (p : List ℕ) (blk pos : ℕ)
    → bs ≢ []
    → Cursor bs blk pos
    → unread (drop blk (insert_back bs p)) pos ≡ unread (drop blk bs) pos ++ p
unfolding insert_back
insert_back-unread [] p blk pos ne h = absurd (ne refl)
insert_back-unread (b ∷ []) p zero pos ne h = simp append-nil (drop-append pos b p h.1)
insert_back-unread (b ∷ []) p (suc blk) pos ne h = absurd (omega arith)
insert_back-unread (b ∷ c ∷ bs) p zero pos ne h = simp (flat-insert_back c bs p, append_assoc)
insert_back-unread (b ∷ c ∷ bs) p (suc blk) pos ne h =
    insert_back-unread (c ∷ bs) p blk pos (λ e. cc) h

pub insert_back-Cursor :
    (bs : List (List ℕ)) (p : List ℕ) (blk pos : ℕ)
    → Cursor bs blk pos
    → Cursor (insert_back bs p) blk pos
unfolding insert_back
insert_back-Cursor [] p blk pos h = h
insert_back-Cursor (b ∷ []) p blk pos h = omega (arith, length-append b p)
insert_back-Cursor (b ∷ c ∷ []) p zero pos h = h
insert_back-Cursor (b ∷ c ∷ d ∷ bs) p zero pos h = h
insert_back-Cursor (b ∷ c ∷ []) p (suc blk) pos h = omega (arith, length-append c p)
insert_back-Cursor (b ∷ c ∷ d ∷ bs) p (suc blk) pos h = insert_back-Cursor (c ∷ d ∷ bs) p blk pos h

-- The state that `open_block` leaves: as before, with room in the last block.
pub record Opened (b : ChainBuffer) (bs : List (List ℕ)) : Type 0 where
  pub some_block : bs ≢ []
  pub same : unread (drop b.read_block bs) b.read_pos ≡ contents b
  pub cursor : Cursor bs b.read_block b.read_pos
  pub flat_same : flat bs ≡ flat b.blocks
  pub room : length (back bs) ≢ b.block_size

nonempty-append : (bs : List (List ℕ)) (c : List ℕ) → bs ++ (c ∷ []) ≢ []
nonempty-append [] c e = cc
nonempty-append (b ∷ bs) c e = cc

pub back_open : (bs : List (List ℕ)) → back (bs ++ ([] ∷ [])) ≡ []
unfolding back
back_open [] = refl
back_open (b ∷ []) = refl
back_open (b ∷ c ∷ bs) = back_open (c ∷ bs)

Opened-new : (b : ChainBuffer) → 0 < b.block_size → IsValid b → Opened b (b.blocks ++ ([] ∷ []))
Opened-new b pos v = record {
  some_block = nonempty-append b.blocks [];
  same = open-unread b.blocks b.read_block b.read_pos v.cursor;
  cursor = open-Cursor b.blocks b.read_block b.read_pos v.cursor;
  flat_same = flat_open b.blocks;
  room = rw (back_open b.blocks) (omega arith);
}

Opened-old :
    (b : ChainBuffer)
    → IsValid b
    → is_empty b.blocks ≡ false
    → length (back b.blocks) ≢ b.block_size
    → Opened b b.blocks
unfolding is_empty
Opened-old b v e ne = record {
  some_block = λ empty. cc (ap is_empty empty);
  same = refl;
  cursor = v.cursor;
  flat_same = refl;
  room = ne;
}

pub open-Opened :
    (b : ChainBuffer) → 0 < b.block_size → IsValid b → Opened b (open_block b.block_size b.blocks)
unfolding open_block
open-Opened b pos v = ground (arith, Opened-new b pos v, Opened-old b v)

pub back-insert_nil : (bs : List (List ℕ)) → back (insert_back bs []) ≡ back bs
unfolding back insert_back
back-insert_nil [] = refl
back-insert_nil (b ∷ []) = append-nil b
back-insert_nil (b ∷ c ∷ []) = append-nil c
back-insert_nil (b ∷ c ∷ d ∷ bs) = back-insert_nil (c ∷ d ∷ bs)
