-- ===== src/Regf/Encoding/MultiSz.antt =====
-- REG_MULTI_SZ data read back.
use gowim.Base.{
  ℕ, ◌<◌, ◌≡◌, ◌≢◌, refl, arith, List, [], ◌∷◌, ◌++◌, All, append_assoc, append-nil, ap, ◌∙◌, sym,
}
use gowim.Bytes.{Bytes, bytes2, byte, byte-nonzero}
use gowim.Text.{
  Text, IsScalar, encode_runes, units_to_bytes, string_to_utf16le, utf16le_to_string, decode_units,
  bytes_to_units, utf16le_to_string-string_to_utf16le,
}
use gowim.Regf.Encoding.{keep_string, decode_from, encode_multi_sz, decode_multi_sz}

-- A string that REG_MULTI_SZ data can hold: not empty, and of Unicode scalar values but NUL.
pub record IsListable (s : Text) : Type 0 where
  pub not_empty : s ≢ []
  pub scalar : All IsScalar s
  pub no_nul : All (λ c. c ≢ 0) s

decode_from-unit :
    (u : ℕ) (piece b : Bytes)
    → u ≢ 0
    → u < 65536
    → decode_from piece (byte u 0 ∷ byte u 1 ∷ b) ≡ decode_from (piece ++ bytes2 u) b
unfolding decode_from
decode_from-unit u piece b h k = ground (arith, byte-nonzero u k h)

decode_from-units :
    (us : List ℕ) (piece rest : Bytes)
    → All (λ u. (u ≢ 0) × (u < 65536)) us
    → decode_from piece (units_to_bytes us ++ rest) ≡ decode_from (piece ++ units_to_bytes us) rest
unfolding units_to_bytes
decode_from-units [] piece rest h = ap (λ (p : Bytes). decode_from p rest) (sym (append-nil piece))
decode_from-units (u ∷ us) piece rest h =
    let IH = decode_from-units us (piece ++ bytes2 u) rest h.1 in
    decode_from-unit u piece (units_to_bytes us ++ rest) h.0.0 h.0.1
    ∙ IH
    ∙ ap (λ (p : Bytes). decode_from p rest) (append_assoc piece (bytes2 u) (units_to_bytes us))

encode_runes-nonzero :
    (s : Text)
    → All IsScalar s
    → All (λ c. c ≢ 0) s
    → All (λ u. (u ≢ 0) × (u < 65536)) (encode_runes s)
unfolding encode_runes
encode_runes-nonzero [] h k = tt
encode_runes-nonzero (r ∷ rs) h k = ground (arith, encode_runes-nonzero rs)

keep_string-nonempty :
    (piece : Bytes) (rest : List Text)
    → piece ≢ []
    → keep_string piece rest ≡ utf16le_to_string piece ∷ rest
keep_string-nonempty [] rest h = absurd (h refl)
keep_string-nonempty (x ∷ piece) rest h = refl

keep_string-written :
    (s : Text) (rest : List Text) → IsListable s → keep_string (string_to_utf16le s) rest ≡ s ∷ rest
keep_string-written s rest h =
    let back = utf16le_to_string-string_to_utf16le s h.scalar in
    keep_string-nonempty (string_to_utf16le s) rest (λ e. h.not_empty (
      sym back
      ∙ ap utf16le_to_string e
      ∙ (unfold utf16le_to_string decode_units bytes_to_units in refl)))
    ∙ ap (λ (t : Text). t ∷ rest) back

decode_from-string :
    (s : Text) (rest : Bytes)
    → IsListable s
    → decode_from [] (string_to_utf16le s ++ rest) ≡ decode_from (string_to_utf16le s) rest
unfolding string_to_utf16le
decode_from-string s rest h =
    decode_from-units (encode_runes s) [] rest (encode_runes-nonzero s h.scalar h.no_nul)

-- The strings of REG_MULTI_SZ data come back in their order, when none is empty or holds a NUL.
pub decode_multi_sz-encode_multi_sz :
    (ss : List Text) → All IsListable ss → decode_multi_sz (encode_multi_sz ss) ≡ ss
unfolding decode_multi_sz encode_multi_sz
decode_multi_sz-encode_multi_sz [] h = unfold decode_from in refl
decode_multi_sz-encode_multi_sz (s ∷ ss) h =
    decode_from-string s (0 ∷ 0 ∷ encode_multi_sz ss) h.0
    ∙ (unfold decode_from in refl)
    ∙ keep_string-written s (decode_from [] (encode_multi_sz ss)) h.0
    ∙ ap (λ (ts : List Text). s ∷ ts) (decode_multi_sz-encode_multi_sz ss h.1)
