-- ===== src/Xpress/Decode/Outcomes.antt =====
-- How `Decompress` ends: with the size that was asked for, with an error, or with a panic on a header
-- whose lengths are those of no code.
use gowim.Base.{
  ℕ, zero, suc, ◌+◌, ◌/◌, ◌%◌, ◌≤◌, ◌≡◌, refl, ap, sym, ◌∙◌, List, ◌∷◌, length, length-replicate,
  take, drop, replicate, ltb, ◌==◌, arith, false, ok, err, Result, Bool-cases, inl, inr, >>=-eq-ok,
  ◌>>=◌,
}
use gowim.Bytes.{Bytes}
use gowim.Xpress.BitReader.{BitReader, new_bit_reader}
use gowim.Xpress.Decode.{decode_loop, decompress_into, decompress, read_item}
use gowim.Xpress.Huffman.{
  bump, count_lengths, next_code, assign_codewords, canonical_codewords, fill_table,
  build_huffman_decoder, unpack_huffman_lengths, unpack_nibbles,
}
use gowim.Xpress.Huffman.Canonical.{count_lengths_zero}
use gowim.Xpress.Items.{DecodeError, index_out_of_range, apply_item, item_length}
use gowim.Xpress.Lz77.{Item}
use gowim.Xpress.RoundTrip.Whole.{length-apply_item}

ok_eq : {a b : Bytes} → ◌≡◌ {A = Result DecodeError Bytes} (ok a) (ok b) → a ≡ b
ok_eq e = cc

length-decode_loop :
    (fuel : ℕ) (table : ℕ → ℕ) (dst : Bytes) (pos : ℕ) (r : BitReader) (out : Bytes)
    → decode_loop table fuel dst pos r ≡ ok out
    → length out ≡ length dst
unfolding decode_loop
length-decode_loop zero table dst pos r out = λ e. ap (λ (x : Bytes). length x) (sym (ok_eq e))
length-decode_loop (suc fuel) table dst pos r out = elim (Bool-cases (ltb pos (length dst))) [
  | inr done ↦ rw done (λ e. ap (λ (x : Bytes). length x) (sym (ok_eq e)))
  | inl more ↦ rw more (λ e.
      let (found, e1, e2) =
        >>=-eq-ok (read_item table r pos)
          (λ (x : Item × BitReader). apply_item dst pos x.0 >>= λ dst'.
            decode_loop table fuel dst' (pos + item_length x.0) x.1)
          e in
      let (dst', e3, e4) =
        >>=-eq-ok (apply_item dst pos found.0)
          (λ (d : Bytes). decode_loop table fuel d (pos + item_length found.0) found.1) e2 in
      length-decode_loop fuel table dst' (pos + item_length found.0) found.1 out e4
      ∙ length-apply_item found.0 dst dst' pos e3)
]

-- The first code is 0, whatever else the header says.
next_code_one : (lens : List ℕ) → next_code (count_lengths (λ l. 0) lens) 1 ≡ 0
unfolding next_code
next_code_one lens = rw (count_lengths_zero lens (λ l. 0)) refl

assign_ones :
    (next : ℕ → ℕ) (rest : List ℕ)
    → next 1 ≡ 0
    → assign_codewords next (1 ∷ 1 ∷ 1 ∷ rest)
      ≡ 0 ∷ 1 ∷ 2 ∷ assign_codewords (bump (bump (bump next 1) 1) 1) rest
unfolding assign_codewords bump
assign_ones next rest e = rw e refl

fill_ones :
    (rest codes : List ℕ)
    → fill_table (λ p. 0) 0 (1 ∷ 1 ∷ 1 ∷ rest) (0 ∷ 1 ∷ 2 ∷ codes) ≡ err index_out_of_range
unfolding fill_table
fill_ones rest codes = refl

build-panics : (rest : List ℕ) → build_huffman_decoder (1 ∷ 1 ∷ 1 ∷ rest) ≡ err index_out_of_range
unfolding build_huffman_decoder canonical_codewords
build-panics rest =
    let lens = 1 ∷ 1 ∷ 1 ∷ rest in
    ap (fill_table (λ p. 0) 0 lens)
      (assign_ones (next_code (count_lengths (λ l. 0) lens)) rest (next_code_one lens))
    ∙ fill_ones rest
        (assign_codewords (bump (bump (bump (next_code (count_lengths (λ l. 0) lens)) 1) 1) 1) rest)

-- Data that `DecompressInto` accepts fills the output as it is given.
length-decompress_into :
    (dst input out : Bytes) → decompress_into dst input ≡ ok out → length out ≡ length dst
unfolding decompress_into
length-decompress_into dst input out = elim (Bool-cases (length dst == 0)) [
  | inl empty ↦ rw empty (λ e. ap (λ (x : Bytes). length x) (sym (ok_eq e)))
  | inr some_bytes ↦ elim (Bool-cases (ltb (length input) 256)) [
    | inl short ↦ rw (some_bytes, short) (λ e. absurd (cc))
    | inr long ↦
        rw (some_bytes, long)
          (λ e.
            let (table, e1, e2) =
              >>=-eq-ok (build_huffman_decoder (unpack_huffman_lengths (take 256 input)))
                (λ (t : ℕ → ℕ). decode_loop t (length dst) dst 0 (new_bit_reader (drop 256 input)))
                e in
            length-decode_loop (length dst) table dst 0 (new_bit_reader (drop 256 input)) out e2)
  ]
]

-- Whatever the input, data that `Decompress` accepts has the size that was asked for.
pub length-decompress : (input out : Bytes) (n : ℕ) → decompress input n ≡ ok out → length out ≡ n
unfolding decompress
length-decompress input out n e =
    length-decompress_into (replicate n 0) input out e ∙ length-replicate {A = ℕ} n 0

not_zero : (n : ℕ) → (suc n == 0) ≡ false
not_zero n = ground arith

not_short : (n : ℕ) → 254 ≤ n → ltb (suc (suc n)) 256 ≡ false
not_short n h = ground arith

header_ones :
    (c : ℕ) (rest : Bytes)
    → c % 16 ≡ 1
    → unpack_huffman_lengths (take 256 (17 ∷ c ∷ rest))
      ≡ 1 ∷ 1 ∷ 1 ∷ c / 16 ∷ unpack_nibbles (take 254 (take 254 rest))
unfolding unpack_huffman_lengths unpack_nibbles
header_ones c rest e = rw e refl

-- A header that gives its first three symbols codewords of one bit, of which there are but two, is
-- not answered by an error: building the table runs out of its range, which is a panic, whatever the
-- rest of the data, of at least 254 more bytes, and however many bytes, but at least one, are wanted.
pub decompress-panics :
    (c : ℕ) (rest : Bytes) (n : ℕ)
    → c % 16 ≡ 1
    → 254 ≤ length rest
    → decompress (17 ∷ c ∷ rest) (suc n) ≡ err index_out_of_range
unfolding decompress decompress_into
decompress-panics c rest n e h =
    rw
      (
        not_zero (length (replicate {A = ℕ} n 0)),
        not_short (length rest) h,
        header_ones c rest e,
        build-panics (c / 16 ∷ unpack_nibbles (take 254 (take 254 rest))),
      )
      refl
