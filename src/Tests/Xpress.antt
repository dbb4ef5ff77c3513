-- ===== src/Tests/Xpress.antt =====
-- The XPRESS codec at concrete inputs.
use gowim.Base.{
  ℕ, ◌+◌, ◌≤◌, ◌≡◌, refl, arith, List, [], ◌∷◌, length, get_or, replicate, false, ok, err,
}
use gowim.Bytes.{Bytes, byte}
use gowim.Xpress.BitWriter.{new_bit_writer, write_bits, write_byte, flush}
use gowim.Xpress.Copy.{copy_loop, xpress_copy}
use gowim.Xpress.Copy.Bulk.{xpress_copy-loop}
use gowim.Xpress.Decode.{decompress}
use gowim.Xpress.Decode.Outcomes.{decompress-panics}
use gowim.Xpress.Encode.{compress_with, symbol_for}
use gowim.Xpress.Huffman.{
  flat_lens, pack_huffman_lengths, unpack_huffman_lengths, build_huffman_decoder,
  canonical_codewords,
}
use gowim.Xpress.Huffman.Canonical.{IsCode, build_huffman_decoder-HasEntries}
use gowim.Xpress.Huffman.Header.{unpack-pack_huffman_lengths}
use gowim.Xpress.Huffman.Table.{HasEntries, HasRoom}
use gowim.Xpress.Items.{apply_items, index_out_of_range}
use gowim.Xpress.Lengths.{build_lengths}
use gowim.Xpress.Lengths.Bounds.{build_lengths-IsCode}
use gowim.Xpress.Lengths.Used.{build_lengths_used}
use gowim.Xpress.Lz77.{
  literal, copy_of, MatchFinder, new_match_finder, insert, find_match, parse_items, match_limit,
}
use gowim.Xpress.Lz77.Finder.{IsFound, find_match-IsFound}
use gowim.Xpress.Lz77.Parse.{apply_items-parse_items}
use gowim.Xpress.RoundTrip.Flat.{decompress-compress_with, flat_lens-IsCode}

abbrev letters : Bytes
letters = 97 ∷ 98 ∷ 99 ∷ 97 ∷ 98 ∷ 99 ∷ 97 ∷ 98 ∷ []

parse_letters : parse_items letters ≡ literal 97 ∷ literal 98 ∷ literal 99 ∷ copy_of 5 3 ∷ []
unfolding parse_items
parse_letters = refl

symbol_of_match : symbol_for (copy_of 5 3) ≡ 256 + 16 + 2
unfolding symbol_for
symbol_of_match = refl

-- The unit of the pending bits stands in front of a raw byte that is written before it is full.
interleaved :
    flush (write_bits (write_byte (write_bits (new_bit_writer [] 0) 5 3) 9) 1 16)
    ≡ 0 ∷ 160 ∷ 0 ∷ 32 ∷ 9 ∷ 0 ∷ 0 ∷ []
unfolding flush write_bits write_byte new_bit_writer byte
interleaved = refl

decompress-compress_with_example : decompress (compress_with letters false) 8 ≡ ok letters
decompress-compress_with_example = decompress-compress_with letters false (omega arith)

apply_items-parse_items_example : apply_items (replicate 8 0) 0 (parse_items letters) ≡ ok letters
apply_items-parse_items_example = apply_items-parse_items letters (replicate 8 0) refl

abbrev finder : MatchFinder
finder = insert (new_match_finder letters) 0

find_match-IsFound_example :
    IsFound letters 3 (match_limit 8 3) (find_match finder 3).0 (find_match finder 3).1
unfolding insert new_match_finder
find_match-IsFound_example = find_match-IsFound finder 3

xpress_copy-loop_example :
    xpress_copy (97 ∷ 98 ∷ 99 ∷ 0 ∷ 0 ∷ 0 ∷ []) 3 3 3
    ≡ copy_loop (97 ∷ 98 ∷ 99 ∷ 0 ∷ 0 ∷ 0 ∷ []) 3 0 3
xpress_copy-loop_example =
    xpress_copy-loop (97 ∷ 98 ∷ 99 ∷ 0 ∷ 0 ∷ 0 ∷ []) 3 3 3 (omega arith) (omega arith)

build_huffman_decoder-HasEntries_example :
    (table : ℕ → ℕ) × (build_huffman_decoder flat_lens ≡ ok table)
    × HasEntries table 0 flat_lens (canonical_codewords flat_lens)
    × HasRoom flat_lens (canonical_codewords flat_lens)
build_huffman_decoder-HasEntries_example =
    build_huffman_decoder-HasEntries flat_lens flat_lens-IsCode

abbrev frequencies : List ℕ
frequencies = 3 ∷ 0 ∷ 1 ∷ 1 ∷ []

build_lengths-IsCode_example :
    IsCode (build_lengths frequencies) × (length (build_lengths frequencies) ≡ 512)
build_lengths-IsCode_example = build_lengths-IsCode frequencies

build_lengths_used_example : 1 ≤ get_or (build_lengths frequencies) 2 0
build_lengths_used_example = build_lengths_used frequencies 2 (omega arith) (omega arith)

decompress-panics_example : decompress (17 ∷ 1 ∷ replicate 254 0) 1 ≡ err index_out_of_range
decompress-panics_example = decompress-panics 1 (replicate 254 0) 0 refl (omega arith)

unpack-pack_huffman_lengths_example :
    unpack_huffman_lengths (pack_huffman_lengths flat_lens) ≡ flat_lens
unpack-pack_huffman_lengths_example =
    unpack-pack_huffman_lengths flat_lens refl flat_lens-IsCode.short
