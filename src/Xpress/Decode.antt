-- ===== src/Xpress/Decode.antt =====
-- `Decompress` and `DecompressInto` of xpress/decode.go. A negative size, which `Decompress` refuses,
-- is no number here.
pub mod Outcomes
use gowim.Base.{
  ℕ, zero, suc, ◌+◌, ◌-◌, ◌*◌, ◌/◌, ◌%◌, ◌^◌, Option, none, some, List, [], ◌∷◌, length, take, drop,
  replicate, ltb, ◌==◌, if◌then◌else◌, Result, err, ok, ◌>>=◌,
}
use gowim.Bytes.{Bytes}
use gowim.Xpress.Constants.{num_chars, min_match_len, huffman_header_size}
use gowim.Xpress.BitReader.{BitReader, new_bit_reader, ensure_bits, pop_bits, read_byte, read_u16}
use gowim.Xpress.Huffman.{unpack_huffman_lengths, build_huffman_decoder, decode_symbol}
use gowim.Xpress.Items.{DecodeError, short_header, bad_codeword, apply_item, item_length}
use gowim.Xpress.Lz77.{Item, literal, copy_of}

-- The length of a match, from the symbol's nibble and the bytes that may extend it.
unfoldable pub read_length : BitReader → ℕ → ℕ × BitReader
unfolding read_byte read_u16
read_length r len_hdr =
    let (b, r1) = read_byte r in
    if len_hdr == 15
    then (if 15 + b == 15 + 255 then read_u16 r1 else (15 + b, r1))
    else (len_hdr, r)

unfoldable pub read_match : BitReader → ℕ → Item × BitReader
unfolding read_length ensure_bits pop_bits
read_match r sym =
    let log2_offset = sym / 16 % 16 in
    let (extra, r1) = pop_bits (ensure_bits r 16) log2_offset in
    let (len, r2) = read_length r1 (sym % 16) in
    (copy_of (len + min_match_len) (2 ^ log2_offset + extra), r2)

unfoldable pub found_item : ℕ → Option (ℕ × BitReader) → Result DecodeError (Item × BitReader)
unfolding read_match
found_item pos none = err (bad_codeword pos)
found_item pos (some (sym, r)) =
    if ltb sym num_chars then ok (literal sym, r) else ok (read_match r sym)

unfoldable pub read_item : (ℕ → ℕ) → BitReader → ℕ → Result DecodeError (Item × BitReader)
unfolding decode_symbol found_item
read_item table r pos = found_item pos (decode_symbol table r)

-- The loop of `DecompressInto`. An item is a byte at least, so the output's length is fuel enough.
unfoldable pub decode_loop :
    (ℕ → ℕ) → (fuel : ℕ) → Bytes → (pos : ℕ) → BitReader → Result DecodeError Bytes
unfolding read_item apply_item item_length
decode_loop table zero dst pos r = ok dst
decode_loop table (suc fuel) dst pos r =
    let rest = read_item table r pos >>= λ (it, r').
    apply_item dst pos it >>= λ dst'. decode_loop table fuel dst' (pos + item_length it) r' in
    if ltb pos (length dst) then rest else ok dst

unfoldable pub decompress_into : (dst input : Bytes) → Result DecodeError Bytes
decompress_into dst input =
    if length dst == 0
    then ok dst
    else if ltb (length input) huffman_header_size
    then err short_header
    else (build_huffman_decoder (unpack_huffman_lengths (take huffman_header_size input))
        >>= λ table.
            decode_loop table (length dst) dst 0 (new_bit_reader (drop huffman_header_size input)))

unfoldable pub decompress : Bytes → (expected_size : ℕ) → Result DecodeError Bytes
unfolding decompress_into
decompress input n = decompress_into (replicate n 0) input
