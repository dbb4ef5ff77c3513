-- ===== src/Xpress/RoundTrip/Flat.antt =====
-- The preset that does not search: every byte a literal, under the flat code.
use gowim.Base.{
  ℕ, zero, suc, ◌+◌, ◌≤◌, ◌<◌, ◌≡◌, refl, ap, sym, ◌∙◌, Bool, true, false, List, [], ◌∷◌, ◌++◌, map,
  length, length-drop, replicate, drop, drop-drop, get_or, arith, ok, All,
}
use gowim.Bytes.{Bytes, IsByte, byte_at}
use gowim.Xpress.Decode.{decompress}
use gowim.Xpress.Encode.{compress_none, compress_with}
use gowim.Xpress.Huffman.{flat_lens}
use gowim.Xpress.Huffman.Canonical.{IsCode, kraft}
use gowim.Xpress.Huffman.Table.{IsLength}
use gowim.Xpress.Lz77.{literal}
use gowim.Xpress.Lz77.Parse.{Completes, Completes-end, Completes-literal}
use gowim.Xpress.RoundTrip.Codec.{decompress-compress_default}
use gowim.Xpress.RoundTrip.Compress.{decompress-encode_items}
use gowim.Xpress.RoundTrip.Item.{IsWritable}
use gowim.Xpress.Stream.Sync.{byte_at-drop}

literals-Completes :
    (rest b : Bytes) (pos : ℕ)
    → drop pos b ≡ rest
    → pos ≤ length b
    → Completes b pos (map literal rest)
literals-Completes [] b pos e h =
    Completes-end b pos (omega (arith, ap (λ (l : Bytes). length l) e, length-drop pos b))
literals-Completes (x ∷ rest) b pos e h =
    let size = ap (λ (l : Bytes). length l) e in
    let inside : pos < length b = omega (arith, size, length-drop pos b) in
    let first : byte_at b pos ≡ x =
      ap (byte_at b) (let f : pos ≡ pos + 0 = omega arith in f)
      ∙ sym (byte_at-drop pos b 0)
      ∙ ap (λ (l : Bytes). byte_at l 0) e in
    let later : drop (pos + 1) b ≡ rest = sym (drop-drop 1 pos b) ∙ ap (drop 1) e in
    rw (← first) (
      Completes-literal b pos (map literal rest) inside
        (literals-Completes rest b (pos + 1) later (omega arith)))

long_code : (n b : ℕ) (rest : List ℕ) → b ≤ n → 1 ≤ get_or (replicate n 8 ++ (9 ∷ rest)) b 0
long_code zero zero rest h = omega arith
long_code zero (suc b) rest h = absurd (omega arith)
long_code (suc n) zero rest h = omega arith
long_code (suc n) (suc b) rest h = long_code n b rest (omega arith)

literals-IsWritable : (b : Bytes) → All IsByte b → All (IsWritable flat_lens) (map literal b)
literals-IsWritable [] h = tt
literals-IsWritable (x ∷ b) (h, hs) =
    ((h, long_code 255 x (9 ∷ replicate 255 0) (omega arith)), literals-IsWritable b hs)

short_replicate :
    (n l : ℕ) (rest : List ℕ) → l ≤ 15 → All IsLength rest → All IsLength (replicate n l ++ rest)
short_replicate zero l rest h k = k
short_replicate (suc n) l rest h k = (h, short_replicate n l rest h k)

zeros_short : (n : ℕ) → All IsLength (replicate n 0)
zeros_short zero = tt
zeros_short (suc n) = (omega arith, zeros_short n)

flat_kraft : kraft flat_lens ≡ 32768
unfolding kraft
flat_kraft = refl

pub flat_lens-IsCode : IsCode flat_lens
flat_lens-IsCode = record {
  short =
      short_replicate 255 8 (9 ∷ 9 ∷ replicate 255 0) (omega arith)
        (omega arith, (omega arith, zeros_short 255));
  fits = omega (arith, flat_kraft);
}

decompress-compress_none :
    (b : Bytes) → All IsByte b → decompress (compress_none b) (length b) ≡ ok b
unfolding compress_none
decompress-compress_none b bytes =
    let c = literals-Completes b b 0 refl (omega arith) in
    decompress-encode_items (map literal b) flat_lens b refl flat_lens-IsCode
      (literals-IsWritable b bytes) (omega arith) (omega (arith, c.covers))
      (λ dst e. c.completes dst (record { same_length = e; bytes = λ k h. elim h [ ] }))

-- Decompressing what `CompressWith` made of any bytes, with the options that skip the search or with
-- those that do not, gives the bytes back, with no error, given their number.
pub decompress-compress_with :
    (b : Bytes) (skip_search : Bool)
    → All IsByte b
    → decompress (compress_with b skip_search) (length b) ≡ ok b
unfolding compress_with
decompress-compress_with b true bytes = decompress-compress_none b bytes
decompress-compress_with b false bytes = decompress-compress_default b bytes
