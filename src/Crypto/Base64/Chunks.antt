-- ===== src/Crypto/Base64/Chunks.antt =====
-- hj/crypto/base64.hpp: what the check of a stream accepts, a chunk at a time.
use high_jump.Common.{
  ℕ, zero, suc, ◌+◌, ◌-◌, ◌%◌, ◌≤◌, ◌≡◌, refl, ap, ◌∙◌, true, false, some, List, [], ◌∷◌, ◌++◌,
  ◌==◌, length, length-append, take, drop, take_all, drop_all, arith,
}
use high_jump.Crypto.Base64.{is_valid, check_chunks, verdict, is_valid_stream}

valid_size : (s : List ℕ) → is_valid (some s) ≡ true → (1 ≤ length s) × (length s % 4 ≡ 0)
unfolding is_valid
valid_size s e = (ground arith, ground arith)

take_front : (n : ℕ) (a b : List ℕ) → length a ≡ n → take n (a ++ b) ≡ a
take_front zero [] b e = refl
take_front (suc n) [] b e = absurd (omega arith)
take_front zero (x ∷ a) b e = absurd (omega arith)
take_front (suc n) (x ∷ a) b e = ap (◌∷◌ x) (take_front n a b (omega arith))

drop_front : (n : ℕ) (a b : List ℕ) → length a ≡ n → drop n (a ++ b) ≡ b
drop_front zero [] b e = refl
drop_front (suc n) [] b e = absurd (omega arith)
drop_front zero (x ∷ a) b e = absurd (omega arith)
drop_front (suc n) (x ∷ a) b e = drop_front n a b (omega arith)

-- One round, for a chunk that is valid, given what is read and what is left.
chunk_round :
    (fuel buf_sz total : ℕ) (s chunk rest : List ℕ)
    → 1 ≤ length s
    → take buf_sz s ≡ chunk
    → drop buf_sz s ≡ rest
    → is_valid (some chunk) ≡ true
    → check_chunks (suc fuel) buf_sz s total ≡ check_chunks fuel buf_sz rest (total + length chunk)
unfolding check_chunks
chunk_round fuel buf_sz total [] chunk rest h t d e = absurd (omega arith)
chunk_round fuel buf_sz total (x ∷ s) chunk rest h t d e = rw (t, d, e) refl

check_chunks-nil : (fuel buf_sz total : ℕ) → check_chunks fuel buf_sz [] total ≡ some (true, total)
unfolding check_chunks
check_chunks-nil zero buf_sz total = refl
check_chunks-nil (suc fuel) buf_sz total = refl

two_rounds :
    (fuel buf_sz : ℕ) (a b : List ℕ)
    → length a ≡ buf_sz
    → length b ≤ buf_sz
    → is_valid (some a) ≡ true
    → is_valid (some b) ≡ true
    → check_chunks (suc (suc fuel)) buf_sz (a ++ b) 0 ≡ some (true, length a + length b)
two_rounds fuel buf_sz a b size short va vb =
    chunk_round (suc fuel) buf_sz 0 (a ++ b) a b (omega (arith, length-append a b, valid_size a va))
      (take_front buf_sz a b size) (drop_front buf_sz a b size) va
    ∙ chunk_round fuel buf_sz (0 + length a) b b [] (omega (arith, valid_size b vb))
        (take_all buf_sz b short) (drop_all buf_sz b short) vb
    ∙ check_chunks-nil fuel buf_sz (0 + length a + length b)
    ∙ ap (λ t. some (true, t)) (omega arith)

-- The check of a stream accepts a full chunk and a last one whenever each of the two is valid by
-- itself: so also when the first ends in `=`, where the whole text is not valid.
pub is_valid_stream-append :
    (buf_sz : ℕ) (a b : List ℕ)
    → length a ≡ buf_sz
    → length b ≤ buf_sz
    → is_valid (some a) ≡ true
    → is_valid (some b) ≡ true
    → is_valid_stream buf_sz true (a ++ b) ≡ some true
unfolding is_valid_stream verdict
is_valid_stream-append buf_sz a b size short va vb =
    let fuel : ℕ = length a + length b - 2 in
    let enough : length (a ++ b) ≡ suc (suc fuel) =
      omega (arith, length-append a b, valid_size a va, valid_size b vb) in
    let sum_some : (length a + length b == 0) ≡ false = ground (arith, valid_size a va) in
    let sum_fours : ((length a + length b) % 4 == 0) ≡ true =
      ground (arith, valid_size a va, valid_size b vb) in
    rw (enough, two_rounds fuel buf_sz a b size short va vb, sum_some, sum_fours) refl
