-- ===== src/Text/Utf16.antt =====
-- `stringToUTF16LE` and `utf16leToString`, over unicode/utf16's Encode and Decode.
use gowim.Base.{
  ℕ, ◌+◌, ◌-◌, ◌*◌, ◌/◌, ◌%◌, ◌<◌, ◌≤◌, ◌≡◌, ◌⊎◌, refl, arith, Bool, ◌&&◌, ◌||◌, List, [], ◌∷◌,
  ◌++◌, ltb, leb, if◌then◌else◌, All, ap, ◌^◌, ◌∙◌,
}
use gowim.Bytes.{Bytes, bytes2, join2, join2-byte}

abbrev pub Text : Type 0
Text = List ℕ

-- A Unicode scalar value: what a valid UTF-8 string holds.
abbrev pub IsScalar : ℕ → Type 0
IsScalar r = (r < 0xd800) ⊎ ((0xe000 ≤ r) × (r < 0x110000))

-- utf16.Encode, on one code point; 0xFFFD stands for what has no encoding.
unfoldable pub encode_rune : ℕ → List ℕ
encode_rune r =
    if ltb r 0xd800 || (leb 0xe000 r && ltb r 0x10000)
    then r ∷ []
    else if leb 0x10000 r && ltb r 0x110000
    then (0xd800 + (r - 0x10000) / 1024) ∷ (0xdc00 + (r - 0x10000) % 1024) ∷ []
    else 0xfffd ∷ []

unfoldable pub encode_runes : Text → List ℕ
unfolding encode_rune
encode_runes [] = []
encode_runes (r ∷ rs) = encode_rune r ++ encode_runes rs

abbrev is_high : ℕ → Bool
is_high u = leb 0xd800 u && ltb u 0xdc00

abbrev is_low : ℕ → Bool
is_low u = leb 0xdc00 u && ltb u 0xe000

abbrev decode_pair : ℕ → ℕ → ℕ
decode_pair u v = (u - 0xd800) * 1024 + (v - 0xdc00) + 0x10000

-- utf16.Decode: a surrogate pair is one code point, and a lone surrogate 0xFFFD.
unfoldable pub decode_units : List ℕ → Text
decode_units [] = []
decode_units (u ∷ []) = (if is_high u || is_low u then 0xfffd else u) ∷ []
decode_units (u ∷ v ∷ us) =
    let single = decode_units (v ∷ us) in
    let pair = decode_units us in
    if is_high u && is_low v
    then decode_pair u v ∷ pair
    else (if is_high u || is_low u then 0xfffd else u) ∷ single

unfoldable pub units_to_bytes : List ℕ → Bytes
units_to_bytes [] = []
units_to_bytes (u ∷ us) = bytes2 u ++ units_to_bytes us

-- `len(b)/2` units: an odd last byte is dropped.
unfoldable pub bytes_to_units : Bytes → List ℕ
bytes_to_units [] = []
bytes_to_units (a ∷ []) = []
bytes_to_units (a ∷ b ∷ bs) = join2 a b ∷ bytes_to_units bs

unfoldable pub string_to_utf16le : Text → Bytes
unfolding encode_runes units_to_bytes
string_to_utf16le s = units_to_bytes (encode_runes s)

unfoldable pub utf16le_to_string : Bytes → Text
unfolding decode_units bytes_to_units
utf16le_to_string b = decode_units (bytes_to_units b)

bytes_to_units-units_to_bytes :
    (us : List ℕ) → All (λ u. u < 2 ^ 16) us → bytes_to_units (units_to_bytes us) ≡ us
unfolding bytes_to_units units_to_bytes
bytes_to_units-units_to_bytes [] h = refl
bytes_to_units-units_to_bytes (u ∷ us) h =
    ground (arith, join2-byte u h.0, bytes_to_units-units_to_bytes us h.1)

encode_runes-fit : (s : Text) → All (λ u. u < 2 ^ 16) (encode_runes s)
unfolding encode_runes
encode_runes-fit [] = tt
encode_runes-fit (r ∷ rs) = ground (arith, encode_runes-fit rs)

decode_single :
    (u : ℕ) (us : List ℕ)
    → (u < 0xd800) ⊎ (0xe000 ≤ u)
    → decode_units (u ∷ us) ≡ u ∷ decode_units us
unfolding decode_units
decode_single u [] h = ground arith
decode_single u (v ∷ us) h = ground arith

decode_two :
    (r : ℕ) (us : List ℕ)
    → 0x10000 ≤ r
    → r < 0x110000
    → decode_units ((0xd800 + (r - 0x10000) / 1024) ∷ (0xdc00 + (r - 0x10000) % 1024) ∷ us)
      ≡ r ∷ decode_units us
unfolding decode_units
decode_two r us lo hi = ground arith

decode-encode : (s : Text) → All IsScalar s → decode_units (encode_runes s) ≡ s
unfolding encode_runes
decode-encode [] h = unfold decode_units in refl
decode-encode (r ∷ rs) h =
    ground (
      arith,
      decode_single r (encode_runes rs),
      decode_two r (encode_runes rs),
      decode-encode rs h.1,
    )

-- A string of Unicode scalar values comes back from its UTF-16LE bytes, surrogate pairs included.
pub utf16le_to_string-string_to_utf16le :
    (s : Text) → All IsScalar s → utf16le_to_string (string_to_utf16le s) ≡ s
unfolding utf16le_to_string string_to_utf16le
utf16le_to_string-string_to_utf16le s h =
    ap decode_units (bytes_to_units-units_to_bytes (encode_runes s) (encode_runes-fit s))
    ∙ decode-encode s h
