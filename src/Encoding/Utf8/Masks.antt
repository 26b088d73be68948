-- ===== src/Encoding/Utf8/Masks.antt =====
-- hj/encoding/utf8.hpp: one round of the check, at lead and tail bytes with given payloads.
use Prim.Native.Nat.{bit_and, bit_or}
use high_jump.Common.{
  ℕ, ◌+◌, ◌*◌, ◌/◌, ◌^◌, ◌<◌, ◌≡◌, refl, false, ◌&&◌, ltb, leb, if◌then◌else◌, arith, none, some,
  List, ◌∷◌,
}
use high_jump.Common.Bits.{all_below, equal_below, or_high}
use high_jump.Encoding.Utf8.{
  is_bad_tail, code_point3, code_point4, two_bytes, three_bytes, four_bytes, next_char,
}

tail_high : (x : ℕ) → x < 64 → bit_and (0x80 + x) 0xc0 ≡ 0x80
unfolding all_below
tail_high x h = equal_below 64 (λ y. bit_and (0x80 + y) 0xc0) (λ y. 0x80) x refl h

tail_low : (x : ℕ) → x < 64 → bit_and (0x80 + x) 0x3f ≡ x
unfolding all_below
tail_low x h = equal_below 64 (λ y. bit_and (0x80 + y) 0x3f) (λ y. y) x refl h

lead2_kind : (x : ℕ) → x < 32 → bit_and (0xc0 + x) 0xe0 ≡ 0xc0
unfolding all_below
lead2_kind x h = equal_below 32 (λ y. bit_and (0xc0 + y) 0xe0) (λ y. 0xc0) x refl h

lead2_overlong : (x : ℕ) → x < 32 → bit_and (0xc0 + x) 0xfe ≡ 0xc0 + x / 2 * 2
unfolding all_below
lead2_overlong x h = equal_below 32 (λ y. bit_and (0xc0 + y) 0xfe) (λ y. 0xc0 + y / 2 * 2) x refl h

lead3_other : (x : ℕ) → x < 16 → bit_and (0xe0 + x) 0xe0 ≡ 0xe0
unfolding all_below
lead3_other x h = equal_below 16 (λ y. bit_and (0xe0 + y) 0xe0) (λ y. 0xe0) x refl h

lead3_kind : (x : ℕ) → x < 16 → bit_and (0xe0 + x) 0xf0 ≡ 0xe0
unfolding all_below
lead3_kind x h = equal_below 16 (λ y. bit_and (0xe0 + y) 0xf0) (λ y. 0xe0) x refl h

lead3_low : (x : ℕ) → x < 16 → bit_and (0xe0 + x) 0x0f ≡ x
unfolding all_below
lead3_low x h = equal_below 16 (λ y. bit_and (0xe0 + y) 0x0f) (λ y. y) x refl h

lead4_other : (x : ℕ) → x < 8 → bit_and (0xf0 + x) 0xe0 ≡ 0xe0
unfolding all_below
lead4_other x h = equal_below 8 (λ y. bit_and (0xf0 + y) 0xe0) (λ y. 0xe0) x refl h

lead4_other3 : (x : ℕ) → x < 8 → bit_and (0xf0 + x) 0xf0 ≡ 0xf0
unfolding all_below
lead4_other3 x h = equal_below 8 (λ y. bit_and (0xf0 + y) 0xf0) (λ y. 0xf0) x refl h

lead4_kind : (x : ℕ) → x < 8 → bit_and (0xf0 + x) 0xf8 ≡ 0xf0
unfolding all_below
lead4_kind x h = equal_below 8 (λ y. bit_and (0xf0 + y) 0xf8) (λ y. 0xf0) x refl h

lead4_low : (x : ℕ) → x < 8 → bit_and (0xf0 + x) 0x07 ≡ x
unfolding all_below
lead4_low x h = equal_below 8 (λ y. bit_and (0xf0 + y) 0x07) (λ y. y) x refl h

good_tail : (x : ℕ) → x < 64 → is_bad_tail (0x80 + x) ≡ false
unfolding is_bad_tail
good_tail x h = rw (tail_high x h) refl

pub next_one : (c : ℕ) (s : List ℕ) → c < 0x80 → next_char c s ≡ some s
unfolding next_char
next_one c s h = ground arith

-- Two bytes are refused only if the payload is below 0x80.
pub next_two :
    (x y : ℕ) (s : List ℕ)
    → x < 32
    → y < 64
    → next_char (0xc0 + x) ((0x80 + y) ∷ s) ≡ (if ltb x 2 then none else some s)
unfolding next_char two_bytes
next_two x y s hx hy =
    let plain : leb (0xc0 + x) 0x7f ≡ false = ground arith in
    rw (plain, lead2_kind x hx, good_tail y hy, lead2_overlong x hx) (ground arith)

code_point3-sum :
    (x y z : ℕ)
    → x < 16
    → y < 64
    → z < 64
    → code_point3 (0xe0 + x) (0x80 + y) (0x80 + z) ≡ x * 4096 + y * 64 + z
unfolding code_point3
code_point3-sum x y z hx hy hz =
    let n : ℕ = bit_or (x * 2 ^ 12) (y * 2 ^ 6) in
    let e : n ≡ (x * 64 + y) * 2 ^ 6 =
      omega (arith, or_high 12 x (x * 2 ^ 12) (y * 2 ^ 6) refl (omega arith)) in
    rw (lead3_low x hx, tail_low y hy, tail_low z hz)
      (omega (arith, or_high 6 (x * 64 + y) n z e (omega arith)))

-- Three bytes are refused only for a surrogate.
pub next_three :
    (x y z : ℕ) (s : List ℕ)
    → x < 16
    → y < 64
    → z < 64
    → next_char (0xe0 + x) ((0x80 + y) ∷ (0x80 + z) ∷ s) ≡ (
        if leb 0xd800 (x * 4096 + y * 64 + z) && leb (x * 4096 + y * 64 + z) 0xdfff
        then none
        else some s)
unfolding next_char three_bytes
next_three x y z s hx hy hz =
    let plain : leb (0xe0 + x) 0x7f ≡ false = ground arith in
    rw
      (
        plain,
        lead3_other x hx,
        lead3_kind x hx,
        good_tail y hy,
        good_tail z hz,
        code_point3-sum x y z hx hy hz,
      )
      refl

code_point4-sum :
    (x y z w : ℕ)
    → x < 8
    → y < 64
    → z < 64
    → w < 64
    → code_point4 (0xf0 + x) (0x80 + y) (0x80 + z) (0x80 + w) ≡ x * 262144 + y * 4096 + z * 64 + w
unfolding code_point4
code_point4-sum x y z w hx hy hz hw =
    let m : ℕ = bit_or (x * 2 ^ 18) (y * 2 ^ 12) in
    let d : m ≡ (x * 64 + y) * 2 ^ 12 =
      omega (arith, or_high 18 x (x * 2 ^ 18) (y * 2 ^ 12) refl (omega arith)) in
    let n : ℕ = bit_or m (z * 2 ^ 6) in
    let e : n ≡ (x * 4096 + y * 64 + z) * 2 ^ 6 =
      omega (arith, or_high 12 (x * 64 + y) m (z * 2 ^ 6) d (omega arith)) in
    rw (lead4_low x hx, tail_low y hy, tail_low z hz, tail_low w hw)
      (omega (arith, or_high 6 (x * 4096 + y * 64 + z) n w e (omega arith)))

-- Four bytes are refused only above 0x10FFFF.
pub next_four :
    (x y z w : ℕ) (s : List ℕ)
    → x < 8
    → y < 64
    → z < 64
    → w < 64
    → next_char (0xf0 + x) ((0x80 + y) ∷ (0x80 + z) ∷ (0x80 + w) ∷ s)
      ≡ (if ltb 0x10ffff (x * 262144 + y * 4096 + z * 64 + w) then none else some s)
unfolding next_char four_bytes
next_four x y z w s hx hy hz hw =
    let plain : leb (0xf0 + x) 0x7f ≡ false = ground arith in
    rw
      (
        plain,
        lead4_other x hx,
        lead4_other3 x hx,
        lead4_kind x hx,
        good_tail y hy,
        good_tail z hz,
        good_tail w hw,
        code_point4-sum x y z w hx hy hz hw,
      )
      refl
