-- ===== src/Tests/Subkeys.antt =====
-- Lists of subkeys at concrete values.
use gowim.Base.{refl, arith, ◌≡◌, ◌+◌, ◌*◌, [], ◌∷◌, ◌++◌, true, ok}
use gowim.Bytes.{Bytes, eq_bytes}
use gowim.Text.{upper}
use gowim.Regf.Subkeys.{
  SubkeyList, has_hashes, has_offsets, parse_subkey_list, append_subkey_list, subkey_list_lh,
  hash_from, lh_hash,
}
use gowim.Regf.Subkeys.RoundTrip.{FitsList, parse-append_subkey_list}

abbrev name : Bytes
name = b'R' ∷ b'u' ∷ b'n' ∷ []

abbrev hashed : SubkeyList
hashed = record {
  signature = subkey_list_lh;
  entries =
      (record { offset = 0x120; hash = 0x1f3b2 })
      ∷ (record { offset = 0x4000_0000; hash = 7 })
      ∷ [];
}

hashed-FitsList : FitsList hashed
unfolding has_hashes has_offsets eq_bytes
hashed-FitsList = ground arith

parse-append_subkey_list_example :
    (b : Bytes) × (append_subkey_list hashed (1 ∷ []) ≡ ok ((1 ∷ []) ++ b))
    × (parse_subkey_list (b ++ (0 ∷ 0 ∷ [])) ≡ ok hashed)
parse-append_subkey_list_example =
    parse-append_subkey_list hashed (1 ∷ []) (0 ∷ 0 ∷ []) hashed-FitsList

hash_run : lh_hash upper name true ≡ (82 * 37 + 85) * 37 + 78
unfolding lh_hash hash_from
hash_run = refl
