-- ===== src/Encoding/Hex/Tests.antt =====
-- hj/encoding/hex.hpp: runs, and the theorems at them.
use high_jump.Common.{◌≡◌, refl, true, some, [], ◌∷◌, map, arith}
use high_jump.Encoding.Hex.{
  hex_char_to_value, is_hex, is_digit, keep_hex, decode, decode_pairs, join_nibbles, pad_even,
  decode_integral, encode, encode_integral, all_digits, is_valid, is_valid_stream,
}
use high_jump.Encoding.Hex.RoundTrip.{decode-encode, encode-decode, recase}
use high_jump.Encoding.Hex.Integral.{decode_integral-encode_integral}
use high_jump.Encoding.Hex.Valid.{is_valid_stream_lem}

-- "1:2f": the colon is skipped, and a zero is put in front.
odd_text : decode (b'1' ∷ b':' ∷ b'2' ∷ b'f' ∷ []) ≡ 0x01 ∷ 0x2f ∷ []
unfolding decode keep_hex is_hex hex_char_to_value pad_even decode_pairs join_nibbles
odd_text = refl

decode-encode_example : decode (encode true (0 ∷ 0xab ∷ 0xff ∷ [])) ≡ 0 ∷ 0xab ∷ 0xff ∷ []
decode-encode_example = decode-encode true (0 ∷ 0xab ∷ 0xff ∷ []) (omega arith)

encode-decode_example :
    encode true (decode (b'a' ∷ b'B' ∷ b'0' ∷ b'7' ∷ []))
    ≡ map (recase true) (b'a' ∷ b'B' ∷ b'0' ∷ b'7' ∷ [])
unfolding is_valid is_digit all_digits
encode-decode_example = encode-decode true (b'a' ∷ b'B' ∷ b'0' ∷ b'7' ∷ []) refl

decode_integral-encode_integral_example :
    decode_integral 32 (encode_integral true 0xdead_beef) ≡ 0xdead_beef
decode_integral-encode_integral_example =
    decode_integral-encode_integral 32 true 0xdead_beef (omega arith) (omega arith)

is_valid_stream_lem_example : is_valid_stream 3 true (b'a' ∷ b'B' ∷ b'0' ∷ b'7' ∷ []) ≡ some true
unfolding is_valid is_digit all_digits
is_valid_stream_lem_example = is_valid_stream_lem 3 (b'a' ∷ b'B' ∷ b'0' ∷ b'7' ∷ []) (omega arith)
