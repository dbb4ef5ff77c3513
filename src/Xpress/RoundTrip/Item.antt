-- ===== src/Xpress/RoundTrip/Item.antt =====
-- One item: the decoder's loop reads what `writeItem` wrote.
use gowim.Base.{
  ℕ, ◌+◌, ◌-◌, ◌/◌, ◌%◌, ◌^◌, ◌≤◌, ◌<◌, ◌≡◌, refl, ap, sym, subst, ◌∙◌, List, ◌++◌, get_or, some,
  ltb, ◌==◌, arith, true, false, Bool-cases, inl, inr, ok,
}
use gowim.Bytes.{Bytes}
use gowim.Xpress.Constants.{num_chars, min_match_len, max_match_len, max_offset}
use gowim.Xpress.BitList.{BitList, AllBits, AllBits-append, to_bits, num-exact, to_bits-AllBits}
use gowim.Xpress.BitReader.{BitReader, ensure_bits, peek_bits, remove_bits}
use gowim.Xpress.BitWriter.{BitWriter, write_bits, push_bits, put_unit}
use gowim.Xpress.Decode.{read_item, found_item, read_match, read_length}
use gowim.Xpress.Encode.{symbol_for, write_item, write_extra_length_bytes, log2, length_header}
use gowim.Xpress.Huffman.{decode_symbol}
use gowim.Xpress.Huffman.Table.{HasEntries, HasRoom}
use gowim.Xpress.Lz77.{Item, literal, copy_of}
use gowim.Xpress.RoundTrip.Length.{
  read_length-Sync, write_extra-Holds, write_extra-Final, read_length-remove_bits,
  read_length-bits_left,
}
use gowim.Xpress.RoundTrip.Symbol.{codeword_small, decode_symbol-Sync}
use gowim.Xpress.Stream.Final.{Final, write_bits-Continues}
use gowim.Xpress.Stream.Pending.{Holds}
use gowim.Xpress.Stream.Sync.{Sync, Phase, ensure_bits-Sync}
use gowim.Xpress.Stream.Take.{peek_bits-Sync, remove_bits-Sync}

-- An item that the format can hold, under a code that has a codeword for it.
abbrev pub IsWritable : List ℕ → Item → Type 0
IsWritable lens (literal b) = (b < num_chars) × (1 ≤ get_or lens b 0)
IsWritable lens (copy_of len off) =
    (min_match_len ≤ len)
    × (len ≤ max_match_len)
    × (1 ≤ off)
    × (off ≤ max_offset)
    × (1 ≤ get_or lens (symbol_for (copy_of len off)) 0)

-- The item's bits, without the bytes of its length.
abbrev pub item_bits : (lens codes : List ℕ) → Item → BitList
item_bits lens codes (literal b) = to_bits (get_or lens b 0) (get_or codes b 0)
item_bits lens codes (copy_of len off) =
    to_bits (get_or lens (symbol_for (copy_of len off)) 0)
      (get_or codes (symbol_for (copy_of len off)) 0)
    ++ to_bits (log2 off) (off - 2 ^ log2 off)

-- The reader reads back what brought the writer from one state to the other.
abbrev pub ReadsBack : (ℕ → ℕ) → BitWriter → BitList → Item → BitWriter → BitList → Type 0
ReadsBack table w pending it w' added =
    (pending' : BitList) × Holds w' pending'
    × AllBits added
    × ((final : Bytes) (future : BitList)
        → AllBits future
        → Final final w' pending' future
        → Final final w pending (added ++ future)
          × ((start : ℕ) (r : BitReader) (pos : ℕ)
              → Sync final start r w (added ++ future)
              → (r' : BitReader) × (read_item table r pos ≡ ok (it, r'))
                × Sync final start r' w' future))

pub read_item_found :
    (table : ℕ → ℕ) (r : BitReader) (pos sym : ℕ) (r1 : BitReader)
    → decode_symbol table r ≡ some (sym, r1)
    → read_item table r pos ≡ found_item pos (some (sym, r1))
unfolding read_item
read_item_found table r pos sym r1 e = ap (found_item pos) e

pub found_literal :
    (pos b : ℕ) (r : BitReader) → b < 256 → found_item pos (some (b, r)) ≡ ok (literal b, r)
unfolding found_item
found_literal pos b r h = let char : ltb b 256 ≡ true = ground arith in rw char refl

pub found_match :
    (pos sym : ℕ) (r : BitReader)
    → 256 ≤ sym
    → found_item pos (some (sym, r)) ≡ ok (read_match r sym)
unfolding found_item
found_match pos sym r h = let header : ltb sym 256 ≡ false = ground arith in rw header refl

pub read_match_lem :
    (r : BitReader) (sym : ℕ)
    → read_match r sym ≡ (
      copy_of
          ((read_length (remove_bits (ensure_bits r 16) (sym / 16 % 16)) (sym % 16)).0 + 3)
          (2 ^ (sym / 16 % 16) + peek_bits (ensure_bits r 16) (sym / 16 % 16)),
      (read_length (remove_bits (ensure_bits r 16) (sym / 16 % 16)) (sym % 16)).1,
    )
unfolding read_match
read_match_lem r sym = refl

pub write_bits-some : (w : BitWriter) (v n : ℕ) → 1 ≤ n → 1 ≤ (write_bits w v n).bit_count
unfolding write_bits push_bits put_unit
write_bits-some w v n h =
    let some_bits : (n == 0) ≡ false = ground arith in
    elim (Bool-cases (ltb 16 (w.bit_count + n))) [
      | inl full ↦ rw (some_bits, full) (ground arith)
      | inr fits ↦ rw (some_bits, fits) (omega arith)
    ]

both_open :
    (r : BitReader) (w : BitWriter) (start : ℕ)
    → Phase r w start
    → 16 ≤ r.bits_left
    → 1 ≤ w.bit_count
    → 32 ≤ r.bits_left + w.bit_count
both_open r w start p h k = ground arith

-- Behind the symbol, with what the fields of the match say.
module _ (w : BitWriter) (pending : BitList) (h : Holds w pending) (begun : 1 ≤ w.bit_count)
    (n l extra : ℕ) (small : n ≤ 65535) (few : l ≤ 15) (fits : extra < 2 ^ l) where
  abbrev pub match_tail : BitWriter
  match_tail = write_bits (write_extra_length_bytes w n) extra l

  module _ (final : Bytes) (future : BitList) (bits : AllBits future)
      (f : Final final (write_extra_length_bytes w n) pending (to_bits l extra ++ future))
      (start : ℕ) (r : BitReader) (s : Sync final start r w (to_bits l extra ++ future)) where
    pub read_tail :
        (peek_bits (ensure_bits r 16) l ≡ extra)
        × ((read_length (remove_bits (ensure_bits r 16) l) (length_header n)).0 ≡ n)
        × Sync final start
            (read_length (remove_bits (ensure_bits r 16) l) (length_header n)).1
            match_tail
            future
    read_tail =
        let later = to_bits l extra ++ future in
        let all = AllBits-append (to_bits l extra) future (to_bits-AllBits l extra fits) bits in
        let g = write_extra-Final w pending h n small final later f in
        let (s1, enough) = ensure_bits-Sync final start r w pending later h g s 16 (omega arith) in
        let r1 = ensure_bits r 16 in
        let reads =
          read_length-Sync w pending h n small final later f start r1 s1
            (both_open r1 w start s1.phase enough begun) in
        let split = read_length-remove_bits r1 l (length_header n) in
        (
          peek_bits-Sync final start r1 w later l s1 all (omega arith)
              ∙ num-exact l extra future fits,
          ap (λ (x : ℕ × BitReader). x.0) split ∙ reads.value,
          subst (λ (x : ℕ × BitReader). Sync final start x.1 match_tail future) (sym split)
              (remove_bits-Sync final start (read_length r1 (length_header n)).1
                (write_extra_length_bytes w n) future extra l reads.after all
                (write_extra-Holds w pending h n small).few
                (omega (arith, read_length-bits_left r1 (length_header n))) (omega arith)),
        )

module _ (table : ℕ → ℕ) (lens codes : List ℕ) (entries : HasEntries table 0 lens codes)
    (room : HasRoom lens codes) (short : (symbol : ℕ) → get_or lens symbol 0 ≤ 15) (w : BitWriter)
    (pending : BitList) (h : Holds w pending) where
  pub literal-ReadsBack :
      (b : ℕ)
      → b < 256
      → 1 ≤ get_or lens b 0
      → ReadsBack table w pending
          (literal b)
          (write_item w (literal b) lens codes)
          (item_bits lens codes (literal b))
  unfolding write_item
  literal-ReadsBack b small used =
      let l = get_or lens b 0 in
      let code = get_or codes b 0 in
      let fits = codeword_small table lens codes entries room b used (short b) in
      let (pending', h', onward) =
        write_bits-Continues w pending code l h (omega (arith, short b)) fits in
      (
        pending',
        h',
        to_bits-AllBits l code fits,
        λ final future bits f'. (
          onward final future f',
          λ start r pos s.
              let (found, s') =
                decode_symbol-Sync table lens codes entries room b used (short b) final start r w
                  pending future h bits (onward final future f') s in
              (
                remove_bits (ensure_bits r 15) l,
                read_item_found table r pos b (remove_bits (ensure_bits r 15) l) found
                    ∙ found_literal pos b (remove_bits (ensure_bits r 15) l) small,
                s',
              ),
        ),
      )
