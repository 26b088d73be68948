-- ===== src/Io/ChainBuffer/Consume.antt =====
-- hj/io/chain_buffer.hpp: `consume` drops bytes at the front, over block boundaries.
use high_jump.Common.{
  ℕ, zero, suc, ◌+◌, ◌-◌, ◌≤◌, ◌<◌, ◌≡◌, ◌≢◌, refl, sym, ap, ◌∙◌, inl, inr, Bool-cases, ltb, true,
  min, some, List, [], ◌∷◌, ◌++◌, length, length-append, length-drop, drop, drop-append,
  drop-append_ge, drop-drop, drop_nil, arith, if◌then◌else◌,
}
use high_jump.Io.ChainBuffer.{
  ChainBuffer, Consumed, inside, past, fault, size_mod, sub_size, consume_loop, finish, consume,
  is_empty,
}
use high_jump.Io.ChainBuffer.Contents.{
  flat, unread, contents, Cursor, IsValid, contents-le-flat, drop-le-flat, unread_start,
}

pub Cursor-head :
    (b : List ℕ) (bs : List (List ℕ)) (pos : ℕ) → Cursor (b ∷ bs) 0 pos → pos ≤ length b
Cursor-head b [] pos h = h.1
Cursor-head b (c ∷ bs) pos h = h

Cursor-at_head :
    (b : List ℕ) (bs : List (List ℕ)) (pos : ℕ) → pos ≤ length b → Cursor (b ∷ bs) 0 pos
Cursor-at_head b [] pos h = (refl, h)
Cursor-at_head b (c ∷ bs) pos h = h

pub Cursor-start : (bs : List (List ℕ)) → Cursor bs 0 0
Cursor-start [] = (refl, refl)
Cursor-start (b ∷ bs) = Cursor-at_head b bs 0 (omega arith)

-- The cursor seen from the block that it stands in.
pub Cursor-drop :
    (bs : List (List ℕ)) (blk pos : ℕ) → Cursor bs blk pos → Cursor (drop blk bs) 0 pos
Cursor-drop [] zero pos h = h
Cursor-drop [] (suc blk) pos h = absurd (omega arith)
Cursor-drop (b ∷ []) zero pos h = h
Cursor-drop (b ∷ []) (suc blk) pos h = absurd (omega arith)
Cursor-drop (b ∷ c ∷ bs) zero pos h = h
Cursor-drop (b ∷ c ∷ bs) (suc blk) pos h = Cursor-drop (c ∷ bs) blk pos h

Cursor-of_drop :
    (bs : List (List ℕ)) (blk pos : ℕ)
    → drop blk bs ≢ []
    → Cursor (drop blk bs) 0 pos
    → Cursor bs blk pos
Cursor-of_drop bs zero pos ne h = h
Cursor-of_drop [] (suc blk) pos ne h = absurd (ne refl)
Cursor-of_drop (b ∷ []) (suc blk) pos ne h = absurd (ne (drop_nil blk))
Cursor-of_drop (b ∷ c ∷ bs) (suc blk) pos ne h = Cursor-of_drop (c ∷ bs) blk pos ne h

-- Where the loop stands after it moved `k` blocks on: `len` bytes are gone.
record Moved (bs : List (List ℕ)) (pos len k pos' : ℕ) : Type 0 where
  left : unread (drop k bs) pos' ≡ drop len (unread bs pos)
  cursor : Cursor (drop k bs) 0 pos'

abbrev Post : List (List ℕ) → ℕ → ℕ → ℕ → ℕ → ℕ → Consumed → Type 0
Post bs pos len blk total n (inside pos' blk' total' n') =
    (k : ℕ) × (drop k bs ≢ [])
    × Moved bs pos len k pos'
    × (blk' ≡ blk + k)
    × (total' ≡ total - len)
    × (n' ≡ n + len)
Post bs pos len blk total n (past pos' blk' total' n') =
    (k : ℕ) × Moved bs pos len k pos' × (blk' ≡ blk + k) × (total' ≡ total - len) × (n' ≡ n + len)
Post bs pos len blk total n fault = ⊥

module _ (b : List ℕ) (bs : List (List ℕ)) (pos len : ℕ) (at : pos ≤ length b) where
  Moved-inside : len ≤ length b - pos → Moved (b ∷ bs) pos len 0 (pos + len)
  Moved-inside h = record {
    left =
        ap (λ c. c ++ flat bs) (sym (drop-drop len pos b))
        ∙ sym (drop-append len (drop pos b) (flat bs) (omega (arith, length-drop pos b)));
    cursor = Cursor-at_head b bs (pos + len) (omega arith);
  }

  Moved-on :
      (k pos' : ℕ)
      → length b - pos ≤ len
      → Moved bs 0 (len - (length b - pos)) k pos'
      → Moved (b ∷ bs) pos len (suc k) pos'
  Moved-on k pos' h m = record {
    left =
        m.left
        ∙ ap (drop (len - (length b - pos))) (unread_start bs)
        ∙ rest
        ∙ sym (drop-append_ge len (drop pos b) (flat bs) (omega (arith, length-drop pos b)));
    cursor = m.cursor;
  }
    where
      rest : drop (len - (length b - pos)) (flat bs) ≡ drop (len - length (drop pos b)) (flat bs)
      rest = rw (length-drop pos b)

  Post-on :
      (blk total n : ℕ) (r : Consumed)
      → length b - pos ≤ len
      → len ≤ total
      → Post bs 0
          (len - (length b - pos))
          (blk + 1)
          (total - (length b - pos))
          (n + (length b - pos))
          r
      → Post (b ∷ bs) pos len blk total n r
  Post-on blk total n (inside pos' blk' total' n') h t (k, ne, m, p, q, r) =
      (suc k, ne, Moved-on k pos' h m, omega arith, omega arith, omega arith)
  Post-on blk total n (past pos' blk' total' n') h t (k, m, p, q, r) =
      (suc k, Moved-on k pos' h m, omega arith, omega arith, omega arith)
  Post-on blk total n fault h t f = f

pub sub_size_lem : (a b : ℕ) → b ≤ a → a < size_mod → sub_size a b ≡ a - b
unfolding sub_size
sub_size_lem a b h k = omega arith

Moved-none : (bs : List (List ℕ)) (pos : ℕ) → Cursor bs 0 pos → Moved bs pos 0 0 pos
Moved-none bs pos h = record { left = refl; cursor = h }

consume_loop-Post :
    (bs : List (List ℕ)) (pos blk total n len : ℕ)
    → Cursor bs 0 pos
    → length (flat bs) < size_mod
    → total < size_mod
    → len ≤ total
    → len ≤ length (unread bs pos)
    → Post bs pos len blk total n (consume_loop bs pos blk total n len)
unfolding consume_loop
consume_loop-Post bs pos blk total n zero c f t le fit =
    (0, Moved-none bs pos c, omega arith, omega arith, omega arith)
consume_loop-Post [] pos blk total n (suc len) c f t le fit = absurd (omega arith)
consume_loop-Post (b ∷ bs) pos blk total n (suc len) c f t le fit =
    rw (sub_size_lem (length b) pos at (omega (arith, length-append b (flat bs))))
      (elim (Bool-cases (ltb (suc len) (length b - pos))) [
        | inl short ↦ rw short (
          0,
          λ e. cc,
          Moved-inside b bs pos (suc len) at (ground arith),
          omega arith,
          sub_size_lem total (suc len) le t,
          refl,
        )
        | inr long ↦
            rw (long, sub_size_lem total (length b - pos) (ground arith) t)
              (Post-on b bs pos (suc len) at blk total n _ (ground arith) le (
                consume_loop-Post bs 0 (blk + 1) (total - (length b - pos)) (n + (length b - pos))
                  (suc len - (length b - pos)) (Cursor-start bs) (omega (arith, whole))
                  (omega arith) (omega arith) (rw unread_start (omega (arith, whole, split)))))
      ])
  where
    at : pos ≤ length b
    at = Cursor-head b bs pos c

    whole : length (flat (b ∷ bs)) ≡ length b + length (flat bs)
    whole = length-append b (flat bs)

    split : length (unread (b ∷ bs) pos) ≡ length b - pos + length (flat bs)
    split =
        length-append (drop pos b) (flat bs) ∙ ap (λ k. k + length (flat bs)) (length-drop pos b)

-- What a call that consumes `n` bytes leaves.
pub record Took (b : ChainBuffer) (n : ℕ) (b' : ChainBuffer) : Type 0 where
  pub valid : IsValid b'
  pub left : contents b' ≡ drop n (contents b)
  pub block_size_same : b'.block_size ≡ b.block_size

Took-record :
    (b b' : ChainBuffer) (n : ℕ)
    → IsValid b
    → n ≤ b.total_size
    → b'.block_size ≡ b.block_size
    → b'.total_size ≡ b.total_size - n
    → length (flat b'.blocks) ≤ length (flat b.blocks)
    → Cursor b'.blocks b'.read_block b'.read_pos
    → contents b' ≡ drop n (contents b)
    → Took b n b'
Took-record b b' n v le same total memory cursor left = record {
  valid = record {
    sized = omega (arith, v.sized, total, ap length left, length-drop n (contents b));
    cursor = cursor;
    fits = omega (arith, v.fits);
  };
  left = left;
  block_size_same = same;
}

finish-Took :
    (b : ChainBuffer) (n : ℕ) (r : Consumed)
    → IsValid b
    → n ≤ b.total_size
    → Post (drop b.read_block b.blocks) b.read_pos n b.read_block b.total_size 0 r
    → (b' : ChainBuffer) × (finish b r ≡ some (n, b')) × Took b n b'
unfolding finish
finish-Took b n (inside pos blk total m) v le (k, ne, moved, e, t, c) = (
  record b { total_size = total; read_pos = pos; read_block = blk },
  ground arith,
  Took-record b _ n v le refl t (omega arith)
      (Cursor-of_drop b.blocks blk pos (rw at ne) (rw at moved.cursor)) (rw at moved.left),
)
  where
    at : drop blk b.blocks ≡ drop k (drop b.read_block b.blocks)
    at = ap (λ i. drop i b.blocks) e ∙ sym (drop-drop k b.read_block b.blocks)
finish-Took b n (past pos blk total m) v le (k, moved, e, t, c) = (
  record b { blocks = drop blk b.blocks; total_size = total; read_pos = pos; read_block = 0 },
  ground arith,
  Took-record b _ n v le refl t (drop-le-flat b.blocks blk) (rw at moved.cursor) (rw at moved.left),
)
  where
    at : drop blk b.blocks ≡ drop k (drop b.read_block b.blocks)
    at = ap (λ i. drop i b.blocks) e ∙ sym (drop-drop k b.read_block b.blocks)
finish-Took b n fault v le f = absurd f

empty_total : (b : ChainBuffer) → IsValid b → is_empty b.blocks ≡ true → b.total_size ≡ 0
unfolding is_empty
empty_total b v h = v.sized ∙ ap length no_bytes
  where
    blocks_nil : (bs : List (List ℕ)) → is_empty bs ≡ true → bs ≡ []
    blocks_nil [] e = refl
    blocks_nil (c ∷ bs) e = cc

    no_bytes : contents b ≡ []
    no_bytes = rw (blocks_nil b.blocks h, drop_nil b.read_block) refl

empty_loop :
    (b : ChainBuffer) (len : ℕ)
    → IsValid b
    → is_empty b.blocks ≡ true
    → consume_loop
        (drop b.read_block b.blocks)
        b.read_pos
        b.read_block
        b.total_size
        0
        (min len b.total_size)
      ≡ past b.read_pos b.read_block b.total_size 0
unfolding consume_loop
empty_loop b len v h = let e : min len b.total_size ≡ 0 = omega (arith, empty_total b v h) in rw e

-- `consume(len)` stays within the chain, says how many bytes it took, `min(len, size())`, and drops
-- just these from the front; the invariant holds again.
pub consume-Took :
    (b : ChainBuffer) (len : ℕ)
    → IsValid b
    → (b' : ChainBuffer) × (consume b len ≡ some (min len b.total_size, b'))
      × Took b (min len b.total_size) b'
unfolding consume
consume-Took b len v = rw cut (elim (Bool-cases (is_empty b.blocks)) [
  | inl none_left ↦
      rw (none_left, ← empty_loop b len v none_left)
        (finish-Took b (min len b.total_size) _ v (omega arith) loop)
  | inr more ↦ rw more (finish-Took b (min len b.total_size) _ v (omega arith) loop)
])
  where
    cut : (if ltb len b.total_size then len else b.total_size) ≡ min len b.total_size
    cut = ground arith

    loop :
        Post
          (drop b.read_block b.blocks)
          b.read_pos
          (min len b.total_size)
          b.read_block
          b.total_size
          0
          (consume_loop
            (drop b.read_block b.blocks)
            b.read_pos
            b.read_block
            b.total_size
            0
            (min len b.total_size))
    loop =
        consume_loop-Post (drop b.read_block b.blocks) b.read_pos b.read_block b.total_size 0
          (min len b.total_size) (Cursor-drop b.blocks b.read_block b.read_pos v.cursor)
          (omega (arith, v.fits, drop-le-flat b.blocks b.read_block))
          (omega (arith, v.sized, v.fits, contents-le-flat b)) (omega arith)
          (omega (arith, v.sized))
