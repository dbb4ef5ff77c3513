-- ===== src/Xpress/RoundTrip/Match.antt =====
-- A match: the decoder's loop reads what `writeItem` wrote, symbol, length and offset.
use gowim.Base.{
  ℕ, ◌+◌, ◌-◌, ◌*◌, ◌^◌, ◌≤◌, ◌<◌, ◌≡◌, refl, ap, sym, subst, ◌∙◌, List, ◌++◌, append_assoc, get_or,
  arith, ok,
}
use gowim.Xpress.BitList.{BitList, AllBits-append, to_bits, to_bits-AllBits}
use gowim.Xpress.BitReader.{BitReader, ensure_bits, peek_bits, remove_bits}
use gowim.Xpress.BitWriter.{BitWriter, write_bits}
use gowim.Xpress.Decode.{read_match, read_length}
use gowim.Xpress.Encode.{symbol_for, write_item, write_extra_length_bytes, log2, length_header}
use gowim.Xpress.Huffman.Table.{HasEntries, HasRoom}
use gowim.Xpress.Lz77.{copy_of}
use gowim.Xpress.RoundTrip.Length.{write_extra-Holds, write_extra-Final}
use gowim.Xpress.RoundTrip.Numbers.{log2_bounds, length_header-le, symbol_fields}
use gowim.Xpress.RoundTrip.Symbol.{codeword_small, decode_symbol-Sync}
use gowim.Xpress.Stream.Final.{Final, write_bits-Continues}
use gowim.Xpress.Stream.Pending.{Holds}
use gowim.Xpress.Stream.Sync.{Sync}
use gowim.Xpress.RoundTrip.Item.{
  IsWritable, item_bits, ReadsBack, read_item_found, found_match, read_match_lem, write_bits-some,
  read_tail,
}

-- What `read_match` makes of a symbol's fields and of what is read behind it.
match_found :
    (r : BitReader) (l hdr len off : ℕ)
    → l ≤ 15
    → hdr ≤ 15
    → 3 ≤ len
    → 2 ^ l ≤ off
    → peek_bits (ensure_bits r 16) l ≡ off - 2 ^ l
    → (read_length (remove_bits (ensure_bits r 16) l) hdr).0 ≡ len - 3
    → read_match r (256 + (l * 16 + hdr))
      ≡ (copy_of len off, (read_length (remove_bits (ensure_bits r 16) l) hdr).1)
match_found r l hdr len off hl hh long low offset value =
    let (fl, fh) = symbol_fields l hdr hl hh in
    let whole : len - 3 + 3 ≡ len = omega arith in
    let back : 2 ^ l + (off - 2 ^ l) ≡ off = omega arith in
    read_match_lem r (256 + (l * 16 + hdr)) ∙ rw (fl, fh, offset, value, whole, back) refl

module _ (table : ℕ → ℕ) (lens codes : List ℕ) (entries : HasEntries table 0 lens codes)
    (room : HasRoom lens codes) (short : (symbol : ℕ) → get_or lens symbol 0 ≤ 15) (w : BitWriter)
    (pending : BitList) (h : Holds w pending) (len off : ℕ) where
  fields-ReadsBack :
      (symbol l : ℕ)
      → 1 ≤ get_or lens symbol 0
      → symbol ≡ 256 + (l * 16 + length_header (len - 3))
      → l ≤ 15
      → 2 ^ l ≤ off
      → off - 2 ^ l < 2 ^ l
      → 3 ≤ len
      → len ≤ 65538
      → ReadsBack table w pending
          (copy_of len off)
          (write_bits
            (write_extra_length_bytes
              (write_bits w (get_or codes symbol 0) (get_or lens symbol 0))
              (len - 3))
            (off - 2 ^ l)
            l)
          (to_bits (get_or lens symbol 0) (get_or codes symbol 0) ++ to_bits l (off - 2 ^ l))
  fields-ReadsBack symbol l used e few low fits long limit =
      let n = len - 3 in
      let extra = off - 2 ^ l in
      let cl = get_or lens symbol 0 in
      let code = get_or codes symbol 0 in
      let code_fits = codeword_small table lens codes entries room symbol used (short symbol) in
      let w1 = write_bits w code cl in
      let (p1, h1, onward1) =
        write_bits-Continues w pending code cl h (omega (arith, short symbol)) code_fits in
      let begun = write_bits-some w code cl used in
      let w2 = write_extra_length_bytes w1 n in
      let (p3, h3, onward3) =
        write_bits-Continues w2 p1 extra l (write_extra-Holds w1 p1 h1 n (omega arith))
          (omega arith) fits in
      (
        p3,
        h3,
        AllBits-append (to_bits cl code) (to_bits l extra) (to_bits-AllBits cl code code_fits)
            (to_bits-AllBits l extra fits),
        λ final future bits f3.
            let later = to_bits l extra ++ future in
            let f2 = onward3 final future f3 in
            let f1 = write_extra-Final w1 p1 h1 n (omega arith) final later f2 in
            let f0 = onward1 final later f1 in
            let split = append_assoc (to_bits cl code) (to_bits l extra) future in
            (
              subst (λ (x : BitList). Final final w pending x) (sym split) f0,
              λ start r pos s.
                  let s0 = subst (λ (x : BitList). Sync final start r w x) split s in
                  let all =
                    AllBits-append (to_bits l extra) future (to_bits-AllBits l extra fits) bits in
                  let (found, s1) =
                    decode_symbol-Sync table lens codes entries room symbol used (short symbol)
                      final start r w pending later h all f0 s0 in
                  let r1 = remove_bits (ensure_bits r 15) cl in
                  let (offset, value, s3) =
                    read_tail w1 p1 h1 begun n l extra (omega arith) few fits final future bits f2
                      start r1 s1 in
                  let hdr = length_header n in
                  (
                    (read_length (remove_bits (ensure_bits r1 16) l) hdr).1,
                    read_item_found table r pos symbol r1 found
                        ∙ found_match pos symbol r1 (omega arith)
                        ∙ ap (λ (x : ℕ). ok (read_match r1 x)) e
                        ∙ ap ok (
                            match_found r1 l hdr len off few (length_header-le n) long low offset
                              value),
                    s3,
                  ),
            ),
      )

  write_item_lem :
      write_item w (copy_of len off) lens codes
      ≡ write_bits
          (write_extra_length_bytes
            (write_bits w
              (get_or codes (symbol_for (copy_of len off)) 0)
              (get_or lens (symbol_for (copy_of len off)) 0))
            (len - 3))
          (off - 2 ^ log2 off)
          (log2 off)
  unfolding write_item
  write_item_lem = refl

  symbol_lem : symbol_for (copy_of len off) ≡ 256 + (log2 off * 16 + length_header (len - 3))
  unfolding symbol_for
  symbol_lem = refl

  pub match-ReadsBack :
      IsWritable lens (copy_of len off)
      → ReadsBack table w pending
          (copy_of len off)
          (write_item w (copy_of len off) lens codes)
          (item_bits lens codes (copy_of len off))
  match-ReadsBack (long, limit, some_off, near, used) =
      let (low, fits, few) = log2_bounds off some_off (omega arith) in
      subst
        (λ (x : BitWriter).
          ReadsBack table w pending (copy_of len off) x (item_bits lens codes (copy_of len off)))
        (sym write_item_lem)
        (fields-ReadsBack (symbol_for (copy_of len off)) (log2 off) used symbol_lem few low fits
          long limit)
