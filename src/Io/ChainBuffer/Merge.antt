-- ===== src/Io/ChainBuffer/Merge.antt =====
-- hj/io/chain_buffer.hpp: `append(other)` takes over the blocks of another buffer.
use high_jump.Common.{
  ℕ, zero, suc, ◌+◌, ◌-◌, ◌≤◌, ◌<◌, ◌≡◌, ◌≢◌, refl, sym, ap, ◌∙◌, inl, inr, Bool-cases, true, false,
  ltb, ◌==◌, none, some, List, [], ◌∷◌, ◌++◌, length, length-append, length-drop, drop, drop_nil,
  arith, append_assoc, if◌then◌else◌,
}
use high_jump.Io.ChainBuffer.{
  ChainBuffer, size_mod, size, empty, clear, add_size, back, is_empty_block, is_fresh,
  append_blocks, append_other, consume_loop, finish, consume, fault, is_empty,
}
use high_jump.Io.ChainBuffer.Contents.{
  flat, unread, contents, Cursor, IsValid, contents-le-flat, unread_start, drop-le-flat,
}
use high_jump.Io.ChainBuffer.Append.{Accepts, Appended, append-Appended, Appended-nil}
use high_jump.Io.ChainBuffer.Consume.{Cursor-head, Cursor-start, Cursor-drop, sub_size_lem}

module _ (b : ChainBuffer) (p q : List ℕ) (a : Accepts b (p ++ q)) where
  Accepts-prefix : Accepts b p
  Accepts-prefix = record {
    valid = a.valid;
    blocks_pos = a.blocks_pos;
    blocks_lt = a.blocks_lt;
    memory = omega (arith, a.memory, length-append p q);
  }

Accepts-after :
    (b b' : ChainBuffer) (p q : List ℕ) → Accepts b (p ++ q) → Appended b p b' → Accepts b' q
Accepts-after b b' p q a r = record {
  valid = r.valid;
  blocks_pos = omega (arith, r.block_size_same, a.blocks_pos);
  blocks_lt = omega (arith, r.block_size_same, a.blocks_lt);
  memory = omega (arith, r.memory, a.memory, length-append p q);
}

Appended-trans :
    (b b' b'' : ChainBuffer) (p q : List ℕ)
    → Appended b p b'
    → Appended b' q b''
    → Appended b (p ++ q) b''
Appended-trans b b' b'' p q r s = record {
  valid = s.valid;
  grown = s.grown ∙ ap (λ c. c ++ q) r.grown ∙ append_assoc (contents b) p q;
  block_size_same = s.block_size_same ∙ r.block_size_same;
  memory = omega (arith, r.memory, s.memory, length-append p q);
}

append_blocks-Appended :
    (bs : List (List ℕ)) (b : ChainBuffer)
    → Accepts b (flat bs)
    → (b' : ChainBuffer) × (append_blocks b bs ≡ some b') × Appended b (flat bs) b'
unfolding append_blocks
append_blocks-Appended [] b a = (b, refl, Appended-nil b a)
append_blocks-Appended ([] ∷ bs) b a = append_blocks-Appended bs b a
append_blocks-Appended ((x ∷ p) ∷ bs) b a =
    let (b1, e1, r1) = append-Appended b (x ∷ p) (Accepts-prefix b (x ∷ p) (flat bs) a) in
    let (b2, e2, r2) = append_blocks-Appended bs b1 (Accepts-after b b1 (x ∷ p) (flat bs) a r1) in
    (b2, rw e1 e2, Appended-trans b b1 b2 (x ∷ p) (flat bs) r1 r2)

-- A loop that is asked for more than there is runs past the last block.
consume_loop-fault :
    (bs : List (List ℕ)) (pos blk total n len : ℕ)
    → Cursor bs 0 pos
    → length (flat bs) < size_mod
    → length (unread bs pos) < len
    → consume_loop bs pos blk total n len ≡ fault
unfolding consume_loop
consume_loop-fault bs pos blk total n zero c f h = absurd (omega arith)
consume_loop-fault [] pos blk total n (suc len) c f h = refl
consume_loop-fault (b ∷ bs) pos blk total n (suc len) c f h =
    rw (sub_size_lem (length b) pos at (omega (arith, whole)))
      (elim (Bool-cases (ltb (suc len) (length b - pos))) [
        | inl short ↦ absurd (ground (arith, split))
        | inr long ↦ rw long (
            consume_loop-fault bs 0 (blk + 1) _ _ (suc len - (length b - pos)) (Cursor-start bs)
              (omega (arith, whole)) (rw unread_start (ground (arith, split))))
      ])
  where
    at : pos ≤ length b
    at = Cursor-head b bs pos c

    whole : length (flat (b ∷ bs)) ≡ length b + length (flat bs)
    whole = length-append b (flat bs)

    split : length (unread (b ∷ bs) pos) ≡ length b - pos + length (flat bs)
    split =
        length-append (drop pos b) (flat bs) ∙ ap (λ k. k + length (flat bs)) (length-drop pos b)

fresh_blocks :
    (bs : List (List ℕ)) → (length bs == 1) ≡ true → is_empty_block (back bs) ≡ true → bs ≡ [] ∷ []
unfolding is_empty_block back
fresh_blocks [] e h = cc
fresh_blocks ([] ∷ []) e h = refl
fresh_blocks ((x ∷ p) ∷ []) e h = cc
fresh_blocks (b ∷ c ∷ bs) e h = absurd (ground arith)

fresh_facts :
    (b : ChainBuffer)
    → IsValid b
    → is_fresh b ≡ true
    → (b.read_block ≡ 0) × (b.read_pos ≡ 0) × (b.total_size ≡ 0)
unfolding is_fresh
fresh_facts b v h = (blk, pos, v.sized ∙ ap length no_bytes)
  where
    blk : b.read_block ≡ 0
    blk = ground arith

    pos : b.read_pos ≡ 0
    pos = ground arith

    no_bytes : contents b ≡ []
    no_bytes = rw (blk, pos, fresh_blocks b.blocks (ground arith) (ground arith)) refl

-- Into a buffer that was never written, `append(other)` moves the contents of an unread buffer: the
-- receiver has them and the right size, and the source is empty.
pub append_other_fresh :
    (b o : ChainBuffer)
    → IsValid b
    → IsValid o
    → is_fresh b ≡ true
    → o.read_block ≡ 0
    → o.read_pos ≡ 0
    → 0 < o.total_size
    → (b' : ChainBuffer) × (append_other b o ≡ some (b', clear o))
      × IsValid b'
      × (contents b' ≡ contents o)
unfolding append_other empty
append_other_fresh b o v w fresh blk pos some_bytes = (
  record b { blocks = o.blocks; total_size = add_size b.total_size o.total_size },
  ground (arith, fresh),
  record {
    sized = total ∙ sym (ap length same);
    cursor = rw (f.0, f.1) (rw (blk, pos) at w.cursor);
    fits = w.fits;
  },
  same,
)
  where
    f : (b.read_block ≡ 0) × (b.read_pos ≡ 0) × (b.total_size ≡ 0)
    f = fresh_facts b v fresh

    same : unread (drop b.read_block o.blocks) b.read_pos ≡ contents o
    same = rw (f.0, f.1, blk, pos)

    total : add_size b.total_size o.total_size ≡ length (contents o)
    total = unfold add_size in omega (arith, f, w.sized, w.fits, contents-le-flat o)

-- A call that asks for more than is there, which a wrong `size()` allows, faults.
consume_fault :
    (b : ChainBuffer) (len : ℕ)
    → Cursor b.blocks b.read_block b.read_pos
    → length (flat b.blocks) < size_mod
    → b.blocks ≢ []
    → length (contents b) < len
    → len ≤ b.total_size
    → consume b len ≡ none
unfolding consume finish is_empty
consume_fault b len c f ne h le = rw (
  cut,
  filled b.blocks ne,
  consume_loop-fault (drop b.read_block b.blocks) b.read_pos b.read_block b.total_size 0 len
      (Cursor-drop b.blocks b.read_block b.read_pos c)
      (omega (arith, drop-le-flat b.blocks b.read_block)) h,
)
  where
    cut : (if ltb len b.total_size then len else b.total_size) ≡ len
    cut = ground arith

    filled : (bs : List (List ℕ)) → bs ≢ [] → is_empty bs ≡ false
    filled [] e = absurd (e refl)
    filled (x ∷ bs) e = refl

counted :
    (b b' : ChainBuffer) (n : ℕ) (p : List ℕ)
    → Appended b p b'
    → length (contents b) + length p + n < size_mod
    → add_size b'.total_size n ≡ length (contents b') + n
unfolding add_size
counted b b' n p r h = omega (arith, r.valid.sized, ap length r.grown, length-append (contents b) p)

longer :
    (b b' o : ChainBuffer)
    → IsValid o
    → Appended b (flat o.blocks) b'
    → o.total_size ≤ length (contents b')
longer b b' o w r = omega (
  arith,
  w.sized,
  contents-le-flat o,
  ap length r.grown,
  length-append (contents b) (flat o.blocks),
)

not_empty : (b : ChainBuffer) → 0 < length (contents b) → b.blocks ≢ []
not_empty b h e = absurd (omega (arith, ap length nothing))
  where
    nothing : contents b ≡ []
    nothing = rw (e, drop_nil b.read_block) refl

-- Into a buffer in use it adds all bytes in the blocks of the source, also those that the source has
-- consumed, and adds the size of the source to a size that counts them already: `size()` exceeds
-- the contents by the size of the source, and `consume(size())` runs past the last block.
pub append_other_overcounts :
    (b o : ChainBuffer)
    → is_fresh b ≡ false
    → IsValid o
    → 0 < o.total_size
    → Accepts b (flat o.blocks)
    → length (contents b) + length (flat o.blocks) + o.total_size < size_mod
    → (b' : ChainBuffer) × (append_other b o ≡ some (b', clear o))
      × (contents b' ≡ contents b ++ flat o.blocks)
      × (size b' ≡ length (contents b') + o.total_size)
      × (consume b' (size b') ≡ none)
unfolding append_other empty
append_other_overcounts b o used w some_bytes a fits =
    let (b1, e, r) = append_blocks-Appended o.blocks b a in
    let b2 : ChainBuffer = record b1 { total_size = add_size b1.total_size o.total_size } in
    let total : b2.total_size ≡ length (contents b1) + o.total_size =
      counted b b1 o.total_size (flat o.blocks) r fits in
    (
      b2,
      rw (used, e) (ground arith),
      r.grown,
      unfold size in total,
      unfold size in
          consume_fault b2 b2.total_size r.valid.cursor r.valid.fits
            (not_empty b1 (omega (arith, longer b b1 o w r))) (omega (arith, total)) (omega arith),
    )
