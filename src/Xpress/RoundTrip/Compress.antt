-- ===== src/Xpress/RoundTrip/Compress.antt =====
-- Compressed data as a whole.
use gowim.Base.{
  ℕ, zero, suc, ◌≤◌, ◌<◌, ◌≡◌, inl, refl, ap, sym, ◌∙◌, List, [], ◌∷◌, ◌++◌, length, take, drop,
  replicate, length-replicate, length-take, get_or, ltb, ◌==◌, arith, false, ok, All,
}
use gowim.Bytes.{Bytes}
use gowim.Xpress.BitList.{
  BitList, AllBits, AllBits-append, to_bits, to_bits-AllBits, num, num-nil, num-zero, pad-zero,
}
use gowim.Xpress.BitReader.{new_bit_reader}
use gowim.Xpress.BitWriter.{new_bit_writer, write_bits, flush}
use gowim.Xpress.Decode.{decode_loop, decompress_into, decompress}
use gowim.Xpress.Encode.{write_items, encode_items}
use gowim.Xpress.Huffman.{
  pack_huffman_lengths, canonical_codewords, build_huffman_decoder, unpack_huffman_lengths,
}
use gowim.Xpress.Huffman.Canonical.{IsCode, build_huffman_decoder-HasEntries}
use gowim.Xpress.Huffman.Header.{length-pack_huffman_lengths, unpack-pack_huffman_lengths}
use gowim.Xpress.Huffman.Table.{IsLength}
use gowim.Xpress.Items.{apply_items, total_length}
use gowim.Xpress.Items.Agree.{at_same}
use gowim.Xpress.Lz77.{Item}
use gowim.Xpress.RoundTrip.Item.{IsWritable}
use gowim.Xpress.RoundTrip.Symbol.{codeword_small}
use gowim.Xpress.RoundTrip.Whole.{items-StreamBack}
use gowim.Xpress.Stream.Final.{Final, write_bits-Continues}
use gowim.Xpress.Stream.Flush.{flush-Final}
use gowim.Xpress.Stream.Pending.{Holds}
use gowim.Xpress.Stream.Sync.{Sync}
use gowim.Xpress.Stream.Writes.{length-grow_to, byte_at-grow_to, byte_at-take}

short_lengths : (lens : List ℕ) → All IsLength lens → (symbol : ℕ) → get_or lens symbol 0 ≤ 15
short_lengths [] h symbol = omega arith
short_lengths (l ∷ lens) h zero = h.0
short_lengths (l ∷ lens) h (suc symbol) = short_lengths lens h.1 symbol

-- The writer and the reader at the start.
new_bit_writer-Holds : (header : Bytes) → length header ≡ 256 → Holds (new_bit_writer header 256) []
unfolding new_bit_writer
new_bit_writer-Holds header e = record {
  count = refl;
  few = omega arith;
  low = sym (num-zero []);
  bits = tt;
  extent = length-grow_to header 260 ∙ omega arith;
  slot = omega arith;
  slot2 = omega arith;
}

new_bit_reader-Sync :
    (final header : Bytes) (future : BitList)
    → Sync final 256 (new_bit_reader (drop 256 final)) (new_bit_writer header 256) future
unfolding new_bit_reader new_bit_writer
new_bit_reader-Sync final header future = record {
  source = refl;
  loaded = sym (ap (num 0 32) (pad-zero future) ∙ num-nil 32 0);
  phase = inl (refl, refl, refl, refl);
}

-- The header stays in front.
header_kept :
    (final header : Bytes) (pending future : BitList)
    → length header ≡ 256
    → Final final (new_bit_writer header 256) pending future
    → take 256 final ≡ header
unfolding new_bit_writer
header_kept final header pending future e f =
    at_same (take 256 final) header (omega (arith, length-take 256 final, f.reach, e)) (λ k inside.
      byte_at-take 256 final k (omega arith)
      ∙ f.kept k (omega arith) (inl (omega arith))
      ∙ byte_at-grow_to header 260 k)

Final-long :
    (final header : Bytes) (pending future : BitList)
    → Final final (new_bit_writer header 256) pending future
    → 256 ≤ length final
unfolding new_bit_writer
Final-long final header pending future f = omega (arith, f.reach)

not_short : (n : ℕ) → 256 ≤ n → ltb n 256 ≡ false
not_short n h = ground arith

not_zero : (n : ℕ) → (suc n == 0) ≡ false
not_zero n = ground arith

decompress_lem :
    (b input : Bytes) (lens : List ℕ) (table : ℕ → ℕ)
    → 256 ≤ length input
    → unpack_huffman_lengths (take 256 input) ≡ lens
    → build_huffman_decoder lens ≡ ok table
    → (0 < length b
        → decode_loop table (length b) (replicate (length b) 0) 0 (new_bit_reader (drop 256 input))
          ≡ ok b)
    → decompress input (length b) ≡ ok b
unfolding decompress decompress_into
decompress_lem [] input lens table long e e' loop = refl
decompress_lem (x ∷ b) input lens table long e e' loop =
    rw
      (
        length-replicate {A = ℕ} (length b) 0,
        not_zero (length b),
        not_short (length input) long,
        e,
        e',
      )
      (loop (omega arith))

module _ (items : List Item) (lens : List ℕ) (b : Bytes) (size : length lens ≡ 512)
    (code : IsCode lens) (writable : All (IsWritable lens) items) (ended : 1 ≤ get_or lens 256 0)
    (covers : total_length items ≡ length b)
    (completes : (dst : Bytes) → length dst ≡ length b → apply_items dst 0 items ≡ ok b) where
  -- The items that an encoder writes under any code that has a codeword for each of them, and for the
  -- end of data, come back as the data that they stand for.
  pub decompress-encode_items : decompress (encode_items items lens) (length b) ≡ ok b
  unfolding encode_items
  decompress-encode_items =
      let (table, built, entries, room) = build_huffman_decoder-HasEntries lens code in
      let codes = canonical_codewords lens in
      let short = short_lengths lens code.short in
      let header = pack_huffman_lengths lens in
      let header_size = length-pack_huffman_lengths lens size in
      let w0 = new_bit_writer header 256 in
      let h0 = new_bit_writer-Holds header header_size in
      let w1 = write_items w0 items lens codes in
      let (p1, added, h1, bits1, back) =
        items-StreamBack table lens codes entries room short items w0 [] h0 writable in
      let end_code = get_or codes 256 0 in
      let end_length = get_or lens 256 0 in
      let end_fits = codeword_small table lens codes entries room 256 ended (short 256) in
      let w2 = write_bits w1 end_code end_length in
      let (p2, h2, onward) =
        write_bits-Continues w1 p1 end_code end_length h1 (omega (arith, short 256)) end_fits in
      let final = flush w2 in
      let f1 = onward final [] (flush-Final w2 p2 h2) in
      let tail = to_bits end_length end_code ++ [] in
      let tail_bits : AllBits tail =
        AllBits-append (to_bits end_length end_code) []
          (to_bits-AllBits end_length end_code end_fits) tt in
      let (f0, read) = back final tail tail_bits f1 in
      let start = new_bit_reader-Sync final header (added ++ tail) in
      decompress_lem b final lens table (Final-long final header [] (added ++ tail) f0)
        (ap unpack_huffman_lengths (header_kept final header [] (added ++ tail) header_size f0)
          ∙ unpack-pack_huffman_lengths lens size code.short)
        built
        (λ some.
          read 256 (new_bit_reader (drop 256 final)) (length b) (replicate (length b) 0) 0 b start
            (completes (replicate (length b) 0) (length-replicate {A = ℕ} (length b) 0))
            (omega (arith, covers, length-replicate {A = ℕ} (length b) 0)) (omega (arith, covers)))
