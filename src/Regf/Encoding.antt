-- ===== src/Regf/Encoding.antt =====
-- regf/key.go's encodings of value data: REG_DWORD, REG_SZ and REG_MULTI_SZ.
pub mod MultiSz
use gowim.Base.{ℕ, Bool, ◌&&◌, List, [], ◌∷◌, ◌++◌, if◌then◌else◌, ◌==◌}
use gowim.Bytes.{Bytes, bytes4}
use gowim.Text.{Text, utf16le_to_string, string_to_utf16le}

abbrev pub encode_dword : ℕ → Bytes
encode_dword n = bytes4 n

abbrev pub encode_sz : Text → Bytes
encode_sz s = string_to_utf16le s

unfoldable pub encode_multi_sz : List Text → Bytes
encode_multi_sz [] = 0 ∷ 0 ∷ []
encode_multi_sz (s ∷ ss) = string_to_utf16le s ++ (0 ∷ 0 ∷ encode_multi_sz ss)

-- `append(out, ...)` where the string is not empty.
abbrev pub keep_string : Bytes → List Text → List Text
keep_string [] rest = rest
keep_string (x ∷ piece) rest = utf16le_to_string (x ∷ piece) ∷ rest

-- The loop of `decodeMultiSZ`; `piece` is `b[start:i]`.
unfoldable pub decode_from : Bytes → Bytes → List Text
decode_from piece [] = []
decode_from piece (x ∷ []) = []
decode_from piece (x ∷ y ∷ b) =
    let closed = keep_string piece (decode_from [] b) in
    let longer = decode_from (piece ++ (x ∷ y ∷ [])) b in
    if (x == 0) && (y == 0) then closed else longer

unfoldable pub decode_multi_sz : Bytes → List Text
unfolding decode_from
decode_multi_sz b = decode_from [] b
