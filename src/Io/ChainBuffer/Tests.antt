-- ===== src/Io/ChainBuffer/Tests.antt =====
-- hj/io/chain_buffer.hpp: runs on small buffers, and the theorems at them.
use high_jump.Common.{◌≡◌, refl, none, some, [], ◌∷◌, length, ◌+◌, arith}
use high_jump.Io.ChainBuffer.{
  ChainBuffer, clear, init, size, back, is_fresh, is_empty_block, append_loop, append, read,
  consume, append_other,
}
use high_jump.Io.ChainBuffer.Contents.{contents, IsValid}
use high_jump.Io.ChainBuffer.Append.{Appended, append-Appended, append_loop-Blocked}
use high_jump.Io.ChainBuffer.Read.{read-take}
use high_jump.Io.ChainBuffer.Consume.{Took, consume-Took}
use high_jump.Io.ChainBuffer.Merge.{append_other_overcounts}

-- Three bytes over blocks of two, the first of them consumed.
abbrev used : ChainBuffer
used = record {
  block_size = 2;
  blocks = (1 ∷ 2 ∷ []) ∷ (3 ∷ []) ∷ [];
  total_size = 2;
  read_pos = 1;
  read_block = 0;
}

abbrev unread_pair : ChainBuffer
unread_pair = record {
  block_size = 4;
  blocks = (7 ∷ 8 ∷ []) ∷ [];
  total_size = 2;
  read_pos = 0;
  read_block = 0;
}

used-IsValid : IsValid used
used-IsValid = record { sized = refl; cursor = omega arith; fits = omega arith }

unread_pair-IsValid : IsValid unread_pair
unread_pair-IsValid = record { sized = refl; cursor = omega arith; fits = omega arith }

new_buffer : ChainBuffer
new_buffer = record {
  block_size = 2;
  blocks = [] ∷ [];
  total_size = 0;
  read_pos = 0;
  read_block = 0;
}

new_buffer-IsValid : IsValid new_buffer
unfolding new_buffer
new_buffer-IsValid = record { sized = refl; cursor = omega arith; fits = omega arith }

append-Appended_example :
    (b : ChainBuffer) × (append used (4 ∷ 5 ∷ 6 ∷ []) ≡ some b) × Appended used (4 ∷ 5 ∷ 6 ∷ []) b
append-Appended_example = append-Appended used (4 ∷ 5 ∷ 6 ∷ []) (record {
  valid = used-IsValid;
  blocks_pos = omega arith;
  blocks_lt = omega arith;
  memory = omega arith;
})

append_loop-Blocked_example : append_loop 100 (init 0) (9 ∷ []) ≡ none
unfolding init back
append_loop-Blocked_example = append_loop-Blocked 100 (init 0) 9 [] (refl, refl)

read-take_example : read used 5 ≡ some (2 ∷ 3 ∷ [])
read-take_example = read-take used 5

consume-Took_example : (b : ChainBuffer) × (consume used 2 ≡ some (2, b)) × Took used 2 b
consume-Took_example = consume-Took used 2 used-IsValid

-- The source was consumed up to its second byte; the receiver gets the first one again.
append_other_overcounts_example :
    (b : ChainBuffer) × (append_other unread_pair used ≡ some (b, clear used))
    × (contents b ≡ 7 ∷ 8 ∷ 1 ∷ 2 ∷ 3 ∷ [])
    × (size b ≡ length (contents b) + 2)
    × (consume b (size b) ≡ none)
unfolding is_fresh back is_empty_block
append_other_overcounts_example =
    append_other_overcounts unread_pair used refl used-IsValid (omega arith)
      (record {
        valid = unread_pair-IsValid;
        blocks_pos = omega arith;
        blocks_lt = omega arith;
        memory = omega arith;
      })
      (omega arith)
