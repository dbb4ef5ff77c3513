-- ===== src/Text/Utf8.antt =====
-- The conversion `string(b)` of bytes as the runes that a range over the string, and with it
-- strings.EqualFold, gives: UTF-8, with U+FFFD for each byte that begins no rune.
use gowim.Base.{
  ℕ, zero, suc, ◌+◌, ◌-◌, ◌*◌, ◌%◌, Bool, true, ◌&&◌, [], ◌∷◌, if◌then◌else◌, ◌==◌, leb, ltb, ◌≡◌,
  refl, ap, arith,
}
use gowim.Bytes.{Bytes, byte_at}
use gowim.Text.Utf16.{Text}
use gowim.Text.Names.{IsAscii}

abbrev rune_error : ℕ
rune_error = 0xfffd

unfoldable pub within : ℕ → ℕ → ℕ → Bool
within low high b = leb low b && leb b high

unfoldable pub continues : ℕ → Bool
unfolding within
continues b = within 0x80 0xbf b

-- Whether the second byte can stand behind the first: no overlong form, no surrogate, and nothing
-- above U+10FFFF.
unfoldable pub second_fits : ℕ → ℕ → Bool
unfolding within
second_fits b0 b1 =
    within (if b0 == 0xe0 then 0xa0 else if b0 == 0xf0 then 0x90 else 0x80)
      (if b0 == 0xed then 0x9f else if b0 == 0xf4 then 0x8f else 0xbf) b1

-- The rune at the head of the bytes and its width. A byte behind the end reads as 0, which continues
-- no rune.
unfoldable pub decode_rune : Bytes → ℕ × ℕ
unfolding continues second_fits
decode_rune b =
    let b0 = byte_at b 0 in
    let b1 = byte_at b 1 in
    let b2 = byte_at b 2 in
    let b3 = byte_at b 3 in
    if ltb b0 0x80
    then (b0, 1)
    else if within 0xc2 0xdf b0 && continues b1
    then (b0 % 32 * 64 + b1 % 64, 2)
    else if within 0xe0 0xef b0 && second_fits b0 b1 && continues b2
    then (b0 % 16 * 4096 + b1 % 64 * 64 + b2 % 64, 3)
    else if within 0xf0 0xf4 b0 && second_fits b0 b1 && continues b2 && continues b3
    then (b0 % 8 * 262144 + b1 % 64 * 4096 + b2 % 64 * 64 + b3 % 64, 4)
    else (rune_error, 1)

-- The runes behind the next `skip` bytes.
unfoldable pub runes_from : (skip : ℕ) → Bytes → Text
unfolding decode_rune
runes_from skip [] = []
runes_from zero (b ∷ bs) = let (r, width) = decode_rune (b ∷ bs) in r ∷ runes_from (width - 1) bs
runes_from (suc skip) (b ∷ bs) = runes_from skip bs

unfoldable pub utf8_to_string : Bytes → Text
utf8_to_string b = runes_from 0 b

decode_rune-ascii : (b : ℕ) (bs : Bytes) → ltb b 0x80 ≡ true → decode_rune (b ∷ bs) ≡ (b, 1)
unfolding decode_rune
decode_rune-ascii b bs h = rw h refl

-- The bytes of an ASCII string are its runes.
pub utf8_to_string-ascii : (s : Text) → IsAscii s → utf8_to_string s ≡ s
unfolding utf8_to_string runes_from
utf8_to_string-ascii [] h = refl
utf8_to_string-ascii (c ∷ s) h =
    rw (decode_rune-ascii c s (ground (arith, h.0))) (ap (◌∷◌ c) (utf8_to_string-ascii s h.1))
