-- ===== src/Xpress/Encode.antt =====
-- xpress/encode.go: an item as a symbol of the alphabet, the bytes that extend its length, and the
-- bits that complete its offset.
use gowim.Base.{
  ℕ, Bool, set, replicate, zero, suc, ◌+◌, ◌-◌, ◌*◌, ◌/◌, ◌%◌, ◌^◌, List, [], ◌∷◌, get_or, ltb,
  ◌==◌, if◌then◌else◌, map,
}
use gowim.Bytes.{Bytes}
use gowim.Xpress.Constants.{num_chars, min_match_len, huffman_header_size, end_of_data, num_symbols}
use gowim.Xpress.BitWriter.{BitWriter, new_bit_writer, write_bits, write_byte, write_u16, flush}
use gowim.Xpress.Huffman.{pack_huffman_lengths, canonical_codewords, flat_lens}
use gowim.Xpress.Lengths.{build_lengths}
use gowim.Xpress.Lz77.{Item, literal, copy_of, parse_items}

-- `bits.Len32(x) - 1` at a positive x below 2 ^ 32: halving 31 times is enough.
unfoldable pub halvings : (fuel x : ℕ) → ℕ
halvings zero x = 0
halvings (suc fuel) x = let rest = halvings fuel (x / 2) in if ltb x 2 then 0 else suc rest

unfoldable pub log2 : ℕ → ℕ
unfolding halvings
log2 x = halvings 31 x

unfoldable pub length_header : ℕ → ℕ
length_header adjusted_len = if ltb 15 adjusted_len then 15 else adjusted_len

unfoldable pub symbol_for : Item → ℕ
unfolding log2 length_header
symbol_for (literal b) = b
symbol_for (copy_of len off) = num_chars + (log2 off * 16 + length_header (len - min_match_len))

unfoldable pub write_extra_length_bytes : BitWriter → ℕ → BitWriter
unfolding write_byte write_u16
write_extra_length_bytes w adjusted_len =
    let extra = if ltb 255 (adjusted_len - 15) then 255 else adjusted_len - 15 in
    let w1 = write_byte w extra in
    if ltb adjusted_len 15
    then w
    else if extra == 255
    then write_u16 w1 (adjusted_len % 65536)
    else w1

unfoldable pub write_item : BitWriter → Item → (lens codewords : List ℕ) → BitWriter
unfolding symbol_for write_extra_length_bytes write_bits log2
write_item w (literal b) lens codewords = write_bits w (get_or codewords b 0) (get_or lens b 0)
write_item w (copy_of len off) lens codewords =
    let sym = symbol_for (copy_of len off) in
    let w1 = write_bits w (get_or codewords sym 0) (get_or lens sym 0) in
    let w2 = write_extra_length_bytes w1 (len - min_match_len) in
    write_bits w2 (off - 2 ^ log2 off) (log2 off)

unfoldable pub write_items : BitWriter → List Item → (lens codewords : List ℕ) → BitWriter
unfolding write_item
write_items w [] lens codewords = w
write_items w (it ∷ items) lens codewords =
    write_items (write_item w it lens codewords) items lens codewords

-- What `compressDefault` and `compressNone` do with the items, once the lengths of the code are
-- there: the header, the items, the end of data.
unfoldable pub encode_items : List Item → (lens : List ℕ) → Bytes
unfolding pack_huffman_lengths canonical_codewords new_bit_writer write_items write_bits flush
encode_items items lens =
    let codewords = canonical_codewords lens in
    let w = new_bit_writer (pack_huffman_lengths lens) huffman_header_size in
    let w1 = write_items w items lens codewords in
    flush (write_bits w1 (get_or codewords end_of_data 0) (get_or lens end_of_data 0))

-- `freqs[symbolFor(it)]++`
unfoldable pub tick : List ℕ → ℕ → List ℕ
tick freqs symbol = set freqs symbol (get_or freqs symbol 0 + 1)

unfoldable pub count_symbols : List ℕ → List Item → List ℕ
unfolding tick symbol_for
count_symbols freqs [] = freqs
count_symbols freqs (it ∷ items) = count_symbols (tick freqs (symbol_for it)) items

-- `compressDefault`
unfoldable pub compress_default : Bytes → Bytes
compress_default b =
    let items = parse_items b in
    let freqs = tick (count_symbols (replicate num_symbols 0) items) end_of_data in
    encode_items items (build_lengths freqs)

-- `compressNone`: every byte a literal, under the flat code.
unfoldable pub compress_none : Bytes → Bytes
compress_none b = encode_items (map literal b) flat_lens

-- `CompressWith`; `Compress` leaves `skip_search` false.
unfoldable pub compress_with : Bytes → (skip_search : Bool) → Bytes
compress_with b skip_search = if skip_search then compress_none b else compress_default b
