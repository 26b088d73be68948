-- ===== src/Encoding/Hex/Valid.antt =====
-- hj/encoding/hex.hpp: the validity of a stream, read in chunks.
use mathlib.Core.Option
use high_jump.Common.{
  ℕ, zero, suc, ◌+◌, ◌≤◌, ◌<◌, ◌≡◌, refl, sym, ap, ◌∙◌, Bool, true, false, ◌&&◌, Option, none, some,
  List, [], ◌∷◌, ◌++◌, length, length-append, length-drop, take, drop, take-append-drop, arith,
  Bool-cases, inl, inr,
}
use high_jump.Encoding.Hex.{all_digits, is_valid, check_chunks, verdict, is_valid_stream}

all_digits-append : (s t : List ℕ) → all_digits (s ++ t) ≡ all_digits s && all_digits t
unfolding all_digits
all_digits-append [] t = refl
all_digits-append (c ∷ s) t = ground (arith, all_digits-append s t)

-- What the loop says is what one look at all characters says.
abbrev Agrees : List ℕ → ℕ → Option (Bool × ℕ) → Type 0
Agrees s total none = ⊥
Agrees s total (some (ok, n)) = (ok ≡ all_digits s) × (all_digits s ≡ true → n ≡ total + length s)

all_digits_split :
    (n : ℕ) (s : List ℕ) → all_digits s ≡ all_digits (take n s) && all_digits (drop n s)
all_digits_split n s =
    ap all_digits (sym (take-append-drop n s)) ∙ all_digits-append (take n s) (drop n s)

length_split : (n : ℕ) (s : List ℕ) → length (take n s) + length (drop n s) ≡ length s
length_split n s = sym (length-append (take n s) (drop n s)) ∙ ap length (take-append-drop n s)

Agrees-after :
    (n : ℕ) (s : List ℕ) (total : ℕ) (r : Option (Bool × ℕ))
    → all_digits (take n s) ≡ true
    → Agrees (drop n s) (total + length (take n s)) r
    → Agrees s total r
Agrees-after n s total none good f = f
Agrees-after n s total (some (ok, k)) good (p, q) = (
  ground (arith, all_digits_split n s),
  λ e. omega (arith, length_split n s, q (ground (arith, all_digits_split n s))),
)

stops : (n : ℕ) (s : List ℕ) → all_digits (take n s) ≡ false → false ≡ all_digits s
stops n s bad = ground (arith, all_digits_split n s)

check_chunks-Agrees :
    (fuel buf_sz : ℕ) (s : List ℕ) (total : ℕ)
    → 0 < buf_sz
    → length s ≤ fuel
    → Agrees s total (check_chunks fuel buf_sz s total)
unfolding check_chunks
check_chunks-Agrees fuel buf_sz [] total pos h = unfold all_digits in (refl, λ e. omega arith)
check_chunks-Agrees zero buf_sz (c ∷ s) total pos h = absurd (omega arith)
check_chunks-Agrees (suc fuel) buf_sz (c ∷ s) total pos h =
    elim (Bool-cases (all_digits (take buf_sz (c ∷ s)))) [
      | inl good ↦ rw good (
          Agrees-after buf_sz (c ∷ s) total _ good (
            check_chunks-Agrees fuel buf_sz (drop buf_sz (c ∷ s))
              (total + length (take buf_sz (c ∷ s))) pos
              (omega (arith, length-drop buf_sz (c ∷ s)))))
      | inr bad ↦ rw bad (stops buf_sz (c ∷ s) bad, λ e. cc (e, stops buf_sz (c ∷ s) bad))
    ]

-- Read in chunks of any positive size, an open stream is valid exactly if its whole text is; the loop
-- ends.
pub is_valid_stream_lem :
    (buf_sz : ℕ) (s : List ℕ) → 0 < buf_sz → is_valid_stream buf_sz true s ≡ some (is_valid s)
unfolding is_valid_stream verdict is_valid
is_valid_stream_lem buf_sz s pos =
    from_loop (check_chunks (length s) buf_sz s 0)
      (check_chunks-Agrees (length s) buf_sz s 0 pos (omega arith))
  where
    from_loop : (r : Option (Bool × ℕ)) → Agrees s 0 r → Option.map verdict r ≡ some (is_valid s)
    from_loop none f = absurd f
    from_loop (some (ok, n)) (p, q) = elim (Bool-cases (all_digits s)) [
      | inl good ↦ ground (arith, p, q good, good)
      | inr bad ↦ ground (arith, p, bad)
    ]
