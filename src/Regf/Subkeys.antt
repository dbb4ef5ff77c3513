-- ===== src/Regf/Subkeys.antt =====
-- regf/subkeylist.go: the lists of subkeys, their cells and the hash of a name.
pub mod RoundTrip
pub mod Hash
use gowim.Base.{
  ℕ, zero, suc, ◌+◌, ◌*◌, ◌%◌, ◌^◌, Bool, true, false, ◌||◌, List, [], ◌∷◌, ◌++◌, length, ltb,
  if◌then◌else◌, replicate, Result, ok, err,
}
use gowim.Bytes.{Bytes, bytes2, bytes4, u16_at, u32_at, slice, write_at, eq_bytes}
use gowim.Text.{utf16le_to_string}

abbrev pub subkey_list_lf : Bytes
subkey_list_lf = b'l' ∷ b'f' ∷ []

abbrev pub subkey_list_lh : Bytes
subkey_list_lh = b'l' ∷ b'h' ∷ []

abbrev pub subkey_list_li : Bytes
subkey_list_li = b'l' ∷ b'i' ∷ []

abbrev pub subkey_list_ri : Bytes
subkey_list_ri = b'r' ∷ b'i' ∷ []

abbrev pub subkey_list_header_size : ℕ
subkey_list_header_size = 4

pub record SubkeyListEntry : Type 0 where
  pub offset : ℕ
  pub hash : ℕ

pub record SubkeyList : Type 0 where
  pub signature : Bytes
  pub entries : List SubkeyListEntry

pub data SubkeyListError : Type 0 where
  too_short entries_overrun unrecognized_signature : SubkeyListError

-- The two cases of the switch on the signature: entries with a hash, and entries without.
unfoldable pub has_hashes : Bytes → Bool
has_hashes sig = eq_bytes sig subkey_list_lf || eq_bytes sig subkey_list_lh

unfoldable pub has_offsets : Bytes → Bool
has_offsets sig = eq_bytes sig subkey_list_li || eq_bytes sig subkey_list_ri

-- The two loops over the entries, with the rounds left and the index `i`.
unfoldable pub read_hashed : ℕ → ℕ → Bytes → List SubkeyListEntry
read_hashed zero i b = []
read_hashed (suc n) i b =
    let o = subkey_list_header_size + i * 8 in
    (record { offset = u32_at b o; hash = u32_at b (o + 4) }) ∷ read_hashed n (i + 1) b

unfoldable pub read_offsets : ℕ → ℕ → Bytes → List SubkeyListEntry
read_offsets zero i b = []
read_offsets (suc n) i b =
    let o = subkey_list_header_size + i * 4 in
    (record { offset = u32_at b o; hash = 0 }) ∷ read_offsets n (i + 1) b

unfoldable pub parse_subkey_list : Bytes → Result SubkeyListError SubkeyList
parse_subkey_list b =
    let sig = slice b 0 2 in
    let count = u16_at b 2 in
    if ltb (length b) subkey_list_header_size
    then err too_short
    else if has_hashes sig
    then (if ltb (length b) (subkey_list_header_size + count * 8)
        then err entries_overrun
        else ok (record { signature = sig; entries = read_hashed count 0 b }))
    else if has_offsets sig
    then (if ltb (length b) (subkey_list_header_size + count * 4)
        then err entries_overrun
        else ok (record { signature = sig; entries = read_offsets count 0 b }))
    else err unrecognized_signature

-- The header that `appendTo` starts with.
unfoldable pub list_header : SubkeyList → Bytes
list_header l =
    write_at (write_at (replicate subkey_list_header_size 0) 0 (slice l.signature 0 2)) 2
      (bytes2 (length l.entries))

unfoldable pub hashed_bytes : List SubkeyListEntry → Bytes
hashed_bytes [] = []
hashed_bytes (e ∷ es) = (bytes4 e.offset ++ bytes4 e.hash) ++ hashed_bytes es

unfoldable pub offset_bytes : List SubkeyListEntry → Bytes
offset_bytes [] = []
offset_bytes (e ∷ es) = bytes4 e.offset ++ offset_bytes es

unfoldable pub append_subkey_list : SubkeyList → Bytes → Result SubkeyListError Bytes
append_subkey_list l dst =
    if has_hashes l.signature
    then ok (dst ++ (list_header l ++ hashed_bytes l.entries))
    else if has_offsets l.signature
    then ok (dst ++ (list_header l ++ offset_bytes l.entries))
    else err unrecognized_signature

-- The loop of `lhHash` over the characters, with `unicode.ToUpper` as the parameter `upper`.
unfoldable pub hash_from : (ℕ → ℕ) → ℕ → List ℕ → ℕ
hash_from upper hash [] = hash
hash_from upper hash (c ∷ cs) =
    hash_from upper ((hash * 37 % 2 ^ 32 + upper c % 2 ^ 32) % 2 ^ 32) cs

unfoldable pub lh_hash : (ℕ → ℕ) → Bytes → Bool → ℕ
lh_hash upper raw true = hash_from upper 0 raw
lh_hash upper raw false = hash_from upper 0 (utf16le_to_string raw)
