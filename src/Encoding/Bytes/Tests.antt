-- ===== src/Encoding/Bytes/Tests.antt =====
-- hj/encoding/bytes.hpp: runs, and the theorems at them.
use high_jump.Common.{◌≡◌, refl, true, false, [], ◌∷◌, arith, drop}
use high_jump.Encoding.Bytes.{
  bytes_to_bool, bool_to_bytes, string_to_bytes, bytes_to_int64, int64_to_bytes,
}
use high_jump.Encoding.Bytes.Word64.{bytes_to_int64-int64_to_bytes}

bool_back : bytes_to_bool (bool_to_bytes (7 ∷ 8 ∷ []) true) ≡ true
unfolding bytes_to_bool bool_to_bytes
bool_back = refl

string_cut : (string_to_bytes (0 ∷ 0 ∷ []) (b'a' ∷ b'b' ∷ b'c' ∷ [])).0 ≡ b'a' ∷ b'b' ∷ []
unfolding string_to_bytes
string_cut = refl

bytes_to_int64-int64_to_bytes_example :
    (bytes_to_int64
        (int64_to_bytes (1 ∷ 2 ∷ 3 ∷ 4 ∷ 5 ∷ 6 ∷ 7 ∷ 8 ∷ []) 0xffff_ffff_ffff_fffe false)
        false
      ≡ 0xffff_ffff_ffff_fffe)
    × (drop 8 (int64_to_bytes (1 ∷ 2 ∷ 3 ∷ 4 ∷ 5 ∷ 6 ∷ 7 ∷ 8 ∷ []) 0xffff_ffff_ffff_fffe false)
        ≡ [])
bytes_to_int64-int64_to_bytes_example =
    bytes_to_int64-int64_to_bytes (1 ∷ 2 ∷ 3 ∷ 4 ∷ 5 ∷ 6 ∷ 7 ∷ 8 ∷ []) 0xffff_ffff_ffff_fffe false
      (omega arith) (omega arith)
