-- ===== src/Xpress/RoundTrip/Symbol.antt =====
-- One symbol: the decoder's table finds the codeword that the encoder wrote.
use gowim.Base.{
  ℕ, ◌+◌, ◌-◌, ◌*◌, ◌/◌, ◌%◌, ◌^◌, ◌≤◌, ◌<◌, ◌≡◌, refl, ap, sym, ◌∙◌, List, [], append-nil, ◌++◌,
  get_or, some, ◌==◌, arith, false,
}
use gowim.Bytes.{Bytes}
use gowim.Xpress.BitList.{
  BitList, AllBits, AllBits-append, num, num-acc, num-append, num-lt, num-to_bits, to_bits,
  to_bits-AllBits, length-to_bits, pow_add,
}
use gowim.Xpress.BitReader.{BitReader, ensure_bits, peek_bits, remove_bits}
use gowim.Xpress.BitWriter.{BitWriter, write_bits}
use gowim.Xpress.Huffman.{decode_symbol}
use gowim.Xpress.Huffman.Regions.{share, share_lem, share_pos}
use gowim.Xpress.Huffman.Table.{HasEntries, HasRoom}
use gowim.Xpress.Stream.Final.{Final}
use gowim.Xpress.Stream.Pending.{Holds}
use gowim.Xpress.Stream.Sync.{Sync, ensure_bits-Sync}
use gowim.Xpress.Stream.Take.{peek_bits-Sync, remove_bits-Sync}

num-exact : (l code : ℕ) → code < 2 ^ l → num 0 l (to_bits l code) ≡ code
num-exact l code k =
    ap (num 0 l) (sym (append-nil (to_bits l code))) ∙ num-to_bits l code 0 [] k ∙ omega arith

num_codeword :
    (l code : ℕ) (future : BitList)
    → l ≤ 15
    → code < 2 ^ l
    → num 0 15 (to_bits l code ++ future) ≡ code * 2 ^ (15 - l) + num 0 (15 - l) future
num_codeword l code future h k =
    let len = length-to_bits l code in
    ap (λ (n : ℕ). num 0 n (to_bits l code ++ future)) (omega (arith, len))
    ∙ num-append (to_bits l code) future (15 - l) 0
    ∙ ap (λ (n : ℕ). num (num 0 n (to_bits l code)) (15 - l) future) len
    ∙ ap (λ (x : ℕ). num x (15 - l) future) (num-exact l code k)
    ∙ num-acc (15 - l) code future

cancel : (a b u : ℕ) → a * u + u ≤ b * u → 0 < u → a < b
cancel a b u h k = grind arith

code_lt : (code l : ℕ) → l ≤ 15 → code * share l + share l ≤ 32768 → code < 2 ^ l
code_lt code l h k =
    let whole : 2 ^ l * share l ≡ 32768 =
      ap (λ (x : ℕ). 2 ^ l * x) (share_lem l)
      ∙ sym (pow_add l (15 - l))
      ∙ ap (λ (x : ℕ). 2 ^ x) (let e : l + (15 - l) ≡ 15 = omega arith in e) in
    cancel code (2 ^ l) (share l) (omega (arith, whole)) (share_pos l)

entry_fields :
    (symbol l : ℕ)
    → 1 ≤ l
    → l < 32
    → ((symbol * 32 + l) % 32 ≡ l) × ((symbol * 32 + l) / 32 ≡ symbol)
entry_fields symbol l h k = omega arith

decode_found :
    (table : ℕ → ℕ) (r : BitReader) (symbol l : ℕ)
    → 1 ≤ l
    → l < 32
    → table (peek_bits (ensure_bits r 15) 15) ≡ symbol * 32 + l
    → decode_symbol table r ≡ some (symbol, remove_bits (ensure_bits r 15) l)
unfolding decode_symbol
decode_found table r symbol l h k e =
    let (low, high) = entry_fields symbol l h k in
    let present : (l == 0) ≡ false = ground arith in rw (e, low, high, present) refl

-- A table whose entries are those of a code.
module _ (table : ℕ → ℕ) (lens codes : List ℕ) (entries : HasEntries table 0 lens codes)
    (room : HasRoom lens codes) (symbol : ℕ) (some_length : 1 ≤ get_or lens symbol 0)
    (few : get_or lens symbol 0 ≤ 15) where
  abbrev l : ℕ
  l = get_or lens symbol 0

  abbrev code : ℕ
  code = get_or codes symbol 0

  pub codeword_small : code < 2 ^ l
  codeword_small = code_lt code l few (room symbol some_length)

  module _ (final : Bytes) (start : ℕ) (r : BitReader) (w : BitWriter) (pending future : BitList)
      (h : Holds w pending) (bits : AllBits future)
      (f : Final final w pending (to_bits l code ++ future))
      (s : Sync final start r w (to_bits l code ++ future)) where
    found : table (peek_bits (ensure_bits r 15) 15) ≡ symbol * 32 + l
    found =
        let (s', enough) =
          ensure_bits-Sync final start r w pending (to_bits l code ++ future) h f s 15
            (omega arith) in
        let written = to_bits-AllBits l code codeword_small in
        let value =
          peek_bits-Sync final start (ensure_bits r 15) w (to_bits l code ++ future) 15 s'
            (AllBits-append (to_bits l code) future written bits) enough
          ∙ num_codeword l code future few codeword_small
          ∙ ap (λ (x : ℕ). code * x + num 0 (15 - l) future) (sym (share_lem l)) in
        ap table value
        ∙ entries symbol (num 0 (15 - l) future) some_length (
            let small : num 0 (15 - l) future < 2 ^ (15 - l) = num-lt (15 - l) future bits in
            omega (arith, share_lem l))
        ∙ omega arith

    pub decode_symbol-Sync :
        (decode_symbol table r ≡ some (symbol, remove_bits (ensure_bits r 15) l))
        × Sync final start (remove_bits (ensure_bits r 15) l) (write_bits w code l) future
    decode_symbol-Sync =
        let (s', enough) =
          ensure_bits-Sync final start r w pending (to_bits l code ++ future) h f s 15
            (omega arith) in
        let written = to_bits-AllBits l code codeword_small in
        (
          decode_found table r symbol l some_length (omega (arith, few)) found,
          remove_bits-Sync final start (ensure_bits r 15) w future code l s'
              (AllBits-append (to_bits l code) future written bits) h.few (omega (arith, few))
              (omega (arith, few)),
        )
