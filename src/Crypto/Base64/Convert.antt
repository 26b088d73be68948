-- ===== src/Crypto/Base64/Convert.antt =====
-- hj/crypto/base64.hpp: the conversions of buffers, strings and streams, around OpenSSL's.
use high_jump.Common.{
  ℕ, ◌+◌, length-drop, ◌*◌, ◌/◌, ◌%◌, ◌^◌, ◌≤◌, ◌≡◌, refl, Bool, true, false, not, ◌||◌, Option,
  none, some, List, ◌++◌, ◌<◌, Bool-cases, inl, inr, ltb, [], min, drop, length-take,
  take-append-drop, ◌==◌, if◌then◌else◌, length, take, arith,
}
use high_jump.Crypto.Base64.{encode_len_reserve, decode_len_reserve}

pub data ErrorCode : Type 0 where
  invalid_input buffer_overflow encode_failed decode_failed : ErrorCode

-- `ok` comes with what is in the destination then. `undocumented` is what OpenSSL makes of a negative
-- length when it reads.
pub data Result : Type 0 where
  failed : ErrorCode → Result
  undocumented : Result
  ok : List ℕ → Result

-- `static_cast<int>` of a length, none for a negative number.
unfoldable pub int_of : ℕ → Option ℕ
int_of n = let low = n % 2 ^ 32 in if ltb low (2 ^ 31) then some low else none

-- The bytes that `BIO_write` takes: of a length that is negative as an `int` none at all. Its result is
-- not looked at.
unfoldable pub written : List ℕ → List ℕ
unfolding int_of
written src = elim (int_of (length src)) [ none ↦ [] | some n ↦ take n src ]

-- `made` tells whether the two BIO objects are made, `to_base64` is what a base64 BIO without line
-- breaks writes, and `of_base64` what it reads, `none` for an error.
module _ (made : Bool) (to_base64 : List ℕ → List ℕ) (of_base64 : List ℕ → Option (List ℕ)) where
  -- `encode` of a buffer, for a destination of `dst_len` bytes.
  unfoldable pub encode_bytes : ℕ → List ℕ → Result
  unfolding written
  encode_bytes dst_len src =
      if (length src == 0) || (dst_len == 0)
      then failed invalid_input
      else (if not made
          then failed encode_failed
          else (if ltb dst_len (length (to_base64 (written src)))
              then failed buffer_overflow
              else ok (to_base64 (written src))))

  unfoldable pub encode_string : List ℕ → Result
  unfolding encode_bytes
  encode_string src = encode_bytes (encode_len_reserve (length src)) src

  -- `encode` of a stream, whose chunks all go to one BIO; the flags are those of the two streams.
  pub encode_stream : Bool → Bool → List ℕ → List ℕ → Result
  encode_stream out_good in_good out inp =
      if not in_good || not out_good
      then failed invalid_input
      else (if not made then failed encode_failed else ok (out ++ to_base64 inp))

  pub read_bytes : ℕ → Option (List ℕ) → Result
  read_bytes dst_len none = failed decode_failed
  read_bytes dst_len (some bytes) = ok (take dst_len bytes)

  -- The lengths of the source and of the destination both go through `int`.
  pub read_source : ℕ → List ℕ → Result
  unfolding int_of read_bytes
  read_source dst_len src = elim (int_of (length src)) [
    | none ↦ undocumented
    | some n ↦ elim (int_of dst_len) [
      | none ↦ undocumented
      | some m ↦ read_bytes m (of_base64 (take n src))
    ]
  ]

  -- `decode` of a buffer: `BIO_read` gives `dst_len` bytes at most.
  pub decode_bytes : ℕ → List ℕ → Result
  unfolding read_source
  decode_bytes dst_len src =
      if not (length src % 4 == 0)
      then failed invalid_input
      else (if not made then failed decode_failed else read_source dst_len src)

  pub decode_string : List ℕ → Result
  unfolding decode_bytes
  decode_string src = decode_bytes (decode_len_reserve (length src)) src

written_short :
    (src : List ℕ)
    → 2 ^ 31 ≤ length src
    → (rest : List ℕ) × (written src ++ rest ≡ src)
      × (1 ≤ length rest)
      × (length (written src) < 2 ^ 31)
unfolding written int_of
written_short src long = elim (Bool-cases (ltb (length src % 2 ^ 32) (2 ^ 31))) [
  | inl t ↦
      let n : ℕ = length src % 2 ^ 32 in
      let low : n < 2 ^ 31 = ground arith in
      let part : length (take n src) ≡ min n (length src) = length-take n src in
      let taken : written src ≡ take n src = rw (written, t) refl in
      rw taken
        (drop n src, take-append-drop n src, omega (arith, length-drop n src), omega (arith, part))
  | inr t ↦
      let taken : written src ≡ [] = rw (written, t) refl in
      rw taken (src, refl, omega arith, omega arith)
]

-- `encode` of a string of 2 ^ 31 bytes or more reports success with the text of a beginning of it that is
-- shorter than 2 ^ 31 bytes: if the BIO objects are made and OpenSSL writes 4 characters for 3 bytes,
-- rounded up.
pub encode_string_cut :
    (to_base64 : List ℕ → List ℕ) (of_base64 : List ℕ → Option (List ℕ)) (src : List ℕ)
    → ((bytes : List ℕ) → length (to_base64 bytes) ≡ (length bytes + 2) / 3 * 4)
    → 2 ^ 31 ≤ length src
    → (part : List ℕ) × (rest : List ℕ) × (part ++ rest ≡ src)
      × (1 ≤ length rest)
      × (length part < 2 ^ 31)
      × (encode_string true to_base64 of_base64 src ≡ ok (to_base64 part))
unfolding encode_string encode_bytes encode_len_reserve
encode_string_cut to_base64 of_base64 src size long =
    let (rest, whole, left, short) = written_short src long in
    let some_src : (length src == 0) ≡ false = ground arith in
    let room : ((length src + 2) / 3 * 4 == 0) ≡ false = ground arith in
    let fits : ltb ((length src + 2) / 3 * 4) (length (to_base64 (written src))) ≡ false =
      ground (arith, size (written src)) in
    (written src, rest, whole, left, short, rw (some_src, room, fits) refl)
