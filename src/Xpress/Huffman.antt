-- ===== src/Xpress/Huffman.antt =====
-- xpress/huffman.go: the lengths of the codewords in the header, the canonical code that they give,
-- and the decoder's table. The arrays `blCount`, `nextCode` and `table` are functions of the index.
pub mod Canonical
pub mod Header
pub mod Regions
pub mod Table
use gowim.Base.{
  ℕ, zero, suc, ◌+◌, ◌-◌, ◌*◌, ◌/◌, ◌%◌, ◌^◌, Option, none, some, List, [], ◌∷◌, ◌++◌, take,
  replicate, ltb, leb, ◌==◌, ◌&&◌, if◌then◌else◌, Result, err, ok,
}
use gowim.Bytes.{Bytes}
use gowim.Xpress.Constants.{max_codeword_len, huffman_header_size}
use gowim.Xpress.Items.{DecodeError, index_out_of_range}
use gowim.Xpress.BitReader.{BitReader, ensure_bits, peek_bits, remove_bits}

-- Two lengths to a byte, the even symbol's in the low nibble.
unfoldable pub pack_huffman_lengths : List ℕ → Bytes
pack_huffman_lengths (l0 ∷ l1 ∷ lens) = ((l1 * 16) % 256 + l0 % 16) ∷ pack_huffman_lengths lens
pack_huffman_lengths _ = []

unfoldable pub unpack_nibbles : Bytes → List ℕ
unpack_nibbles [] = []
unpack_nibbles (b ∷ bs) = b % 16 ∷ b / 16 ∷ unpack_nibbles bs

unfoldable pub unpack_huffman_lengths : Bytes → List ℕ
unfolding unpack_nibbles
unpack_huffman_lengths b = unpack_nibbles (take huffman_header_size b)

unfoldable pub bump : (ℕ → ℕ) → ℕ → ℕ → ℕ
bump counts l k = if k == l then counts k + 1 else counts k

unfoldable pub count_lengths : (ℕ → ℕ) → List ℕ → ℕ → ℕ
unfolding bump
count_lengths counts [] = counts
count_lengths counts (l ∷ lens) = count_lengths (if ltb 0 l then bump counts l else counts) lens

-- `nextCode[bits]`, with at most 512 symbols and 15 bits well below 2 ^ 32.
unfoldable pub next_code : (ℕ → ℕ) → ℕ → ℕ
next_code counts zero = 0
next_code counts (suc bits) = (next_code counts bits + counts bits) * 2

unfoldable pub assign_codewords : (ℕ → ℕ) → List ℕ → List ℕ
unfolding bump
assign_codewords next [] = []
assign_codewords next (l ∷ lens) =
    let unused = 0 ∷ assign_codewords next lens in
    let used = next l % 65536 ∷ assign_codewords (bump next l) lens in
    if l == 0 then unused else used

unfoldable pub canonical_codewords : List ℕ → List ℕ
unfolding count_lengths next_code assign_codewords
canonical_codewords lens = assign_codewords (next_code (count_lengths (λ l. 0) lens)) lens

-- 255 codewords of length 8, and two of length 9: of the last literal and the end of data.
abbrev pub flat_lens : List ℕ
flat_lens = replicate 255 8 ++ (9 ∷ 9 ∷ replicate 255 0)

-- `d.table[base+i] = entry` for every i below `count`.
unfoldable pub fill : (ℕ → ℕ) → (base count entry : ℕ) → ℕ → ℕ
fill table base count entry p = if leb base p && ltb p (base + count) then entry else table p

-- The entries of the symbols from `sym` on. An index that is out of the table's range is a panic.
unfoldable pub fill_table : (ℕ → ℕ) → ℕ → (lens codewords : List ℕ) → Result DecodeError (ℕ → ℕ)
unfolding fill
fill_table table sym (l ∷ lens) (code ∷ codewords) =
    let unused = fill_table table (sym + 1) lens codewords in
    let count = 2 ^ (max_codeword_len - l) in
    let base = code * count in
    let filled = fill_table (fill table base count (sym * 32 + l)) (sym + 1) lens codewords in
    if l == 0 then unused else if leb (base + count) 32768 then filled else err index_out_of_range
fill_table table sym _ _ = ok table

unfoldable pub build_huffman_decoder : List ℕ → Result DecodeError (ℕ → ℕ)
unfolding canonical_codewords fill_table
build_huffman_decoder lens = fill_table (λ p. 0) 0 lens (canonical_codewords lens)

-- One symbol, and the reader behind it; none if no codeword has the next bits.
unfoldable pub decode_symbol : (ℕ → ℕ) → BitReader → Option (ℕ × BitReader)
unfolding ensure_bits peek_bits remove_bits
decode_symbol table r =
    let r1 = ensure_bits r max_codeword_len in
    let entry = table (peek_bits r1 max_codeword_len) in
    if entry % 32 == 0 then none else some (entry / 32, remove_bits r1 (entry % 32))
