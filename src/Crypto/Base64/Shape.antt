-- ===== src/Crypto/Base64/Shape.antt =====
-- hj/crypto/base64.hpp: which texts `is_valid` accepts.
use high_jump.Common.{
  ℕ, zero, suc, ◌+◌, ◌%◌, ◌≤◌, ◌≡◌, refl, ap, ◌∙◌, ◌↔◌, ◌⊎◌, inl, inr, true, false, some, List, [],
  ◌∷◌, ◌++◌, Bool-cases, length, length-append, replicate, length-replicate, All, arith,
}
use high_jump.Crypto.Base64.{
  in_alphabet, check_loop, is_valid, encode_len_reserve, decode_len_reserve,
}

-- Base64 text: characters of the alphabet, and at most two signs `=` behind them.
pub record IsShaped (s : List ℕ) : Type 0 where
  pub body : List ℕ
  pub pads : ℕ
  pub parts : s ≡ body ++ replicate pads b'='
  pub plain : All (λ c. in_alphabet c ≡ true) body
  pub few : pads ≤ 2

pad_step :
    (len i pad c : ℕ) (s : List ℕ)
    → check_loop len i (suc pad) (c ∷ s) ≡ true
    → (c ≡ b'=') × (suc (suc pad) ≤ 2) × (check_loop len (suc i) (suc (suc pad)) s ≡ true)
unfolding check_loop
pad_step len i pad c s e = (ground arith, ground arith, ground arith)

plain_step :
    (len i c : ℕ) (s : List ℕ)
    → check_loop len i 0 (c ∷ s) ≡ true
    → ((in_alphabet c ≡ true) × (check_loop len (suc i) 0 s ≡ true))
      ⊎ ((c ≡ b'=') × (check_loop len (suc i) 1 s ≡ true))
unfolding check_loop
plain_step len i c s e = elim (Bool-cases (in_alphabet c)) [
  | inl plain ↦ inl (plain, ground arith)
  | inr other ↦ inr (ground arith, ground arith)
]

-- Behind a pad only another may stand.
check_pads :
    (len i pad : ℕ) (s : List ℕ)
    → suc pad ≤ 2
    → check_loop len i (suc pad) s ≡ true
    → (s ≡ replicate (length s) b'=') × (suc pad + length s ≤ 2)
check_pads len i pad [] h e = (refl, omega arith)
check_pads len i pad (c ∷ s) h e =
    let one = pad_step len i pad c s e in
    let more = check_pads len (suc i) (suc pad) s one.1 one.2 in
    (rw one.0 (ap (◌∷◌ b'=') more.0), omega (arith, more.1))

check_shape : (len i : ℕ) (s : List ℕ) → check_loop len i 0 s ≡ true → IsShaped s
check_shape len i [] e = record { body = []; pads = 0; parts = refl; plain = tt; few = omega arith }
check_shape len i (c ∷ s) e = elim (plain_step len i c s e) [
  | inl (plain, rest) ↦
      let shape : IsShaped s = check_shape len (suc i) s rest in
      record {
        body = c ∷ shape.body;
        pads = shape.pads;
        parts = ap (◌∷◌ c) shape.parts;
        plain = (plain, shape.plain);
        few = shape.few;
      }
  | inr (sign, rest) ↦
      let more = check_pads len (suc i) 0 s (omega arith) rest in
      record {
        body = [];
        pads = suc (length s);
        parts = rw sign (ap (◌∷◌ b'=') more.0);
        plain = tt;
        few = omega (arith, more.1);
      }
]

sign_out : in_alphabet b'=' ≡ false
unfolding in_alphabet
sign_out = refl

shape_check :
    (len i pads : ℕ) (body : List ℕ)
    → All (λ c. in_alphabet c ≡ true) body
    → pads ≤ 2
    → i + (length body + pads) ≡ len
    → check_loop len i 0 (body ++ replicate pads b'=') ≡ true
unfolding check_loop
shape_check len i zero [] plain few e = refl
shape_check len i (suc zero) [] plain few e = rw sign_out (ground arith)
shape_check len i (suc (suc zero)) [] plain few e = rw sign_out (ground arith)
shape_check len i (suc (suc (suc pads))) [] plain few e = absurd (omega arith)
shape_check len i pads (c ∷ body) (plain, plains) few e =
    rw plain (shape_check len (suc i) pads body plains few (omega arith))

whole : (s : List ℕ) → IsShaped s → check_loop (length s) 0 0 s ≡ true
whole s shape =
    let text : List ℕ = shape.body ++ replicate shape.pads b'=' in
    let size : length s ≡ length shape.body + shape.pads =
      ap length shape.parts
      ∙ length-append shape.body (replicate shape.pads b'=')
      ∙ ap (◌+◌ (length shape.body)) (length-replicate shape.pads b'=') in
    ap (check_loop (length s) 0 0) shape.parts
    ∙ shape_check (length s) 0 shape.pads shape.body shape.plain shape.few (omega (arith, size))

accept :
    (s : List ℕ)
    → 1 ≤ length s
    → length s % 4 ≡ 0
    → check_loop (length s) 0 0 s ≡ true
    → is_valid (some s) ≡ true
unfolding is_valid
accept s some_text fours e = ground arith

-- `is_valid` accepts a buffer exactly if it is not empty, its length is a multiple of 4, and it is
-- characters of the alphabet with at most two signs `=` behind them.
pub is_valid_iff :
    (s : List ℕ) → (is_valid (some s) ≡ true) ↔ ((1 ≤ length s) × (length s % 4 ≡ 0) × IsShaped s)
unfolding is_valid
is_valid_iff s = (
  λ e. (ground arith, ground arith, check_shape (length s) 0 s (ground arith)),
  λ (some_text, fours, shape). accept s some_text fours (whole s shape),
)

-- What is reserved for the encoded form of a length is reserved back to that length or at most 2 more,
-- and is a multiple of 4.
pub encode_len_reserve_bounds :
    (n : ℕ)
    → (n ≤ decode_len_reserve (encode_len_reserve n))
      × (decode_len_reserve (encode_len_reserve n) ≤ n + 2)
      × (encode_len_reserve n % 4 ≡ 0)
unfolding decode_len_reserve encode_len_reserve
encode_len_reserve_bounds n = (omega arith, omega arith, omega arith)
