-- ===== src/Xpress/RoundTrip/Length.antt =====
-- The bytes that extend a match's length: what the writer puts, the reader reads, and the bits in the
-- reader's window stay.
use gowim.Base.{
  ℕ, ◌+◌, ◌-◌, ◌%◌, ◌≤◌, ◌<◌, ◌≡◌, refl, ap, sym, ◌∙◌, length, leb, ltb, ◌==◌, arith, true, false,
  Bool-cases, inl, inr, subst,
}
use native.Mathlib.Decide.{dec_lt}
use gowim.Bytes.{Bytes, byte_at}
use gowim.Xpress.BitList.{BitList}
use gowim.Xpress.BitReader.{BitReader, read_byte, read_u16, remove_bits}
use gowim.Xpress.BitWriter.{BitWriter, write_byte, write_u16}
use gowim.Xpress.Decode.{read_length}
use gowim.Xpress.Encode.{length_header, write_extra_length_bytes}
use gowim.Xpress.Stream.Final.{
  Final, write_byte-Holds, write_u16-Holds, write_byte-Final, write_u16-Final,
}
use gowim.Xpress.Stream.Pending.{Holds}
use gowim.Xpress.Stream.Sync.{Sync}
use gowim.Xpress.Stream.Take.{read_byte-Sync, read_u16-Sync}

-- The three forms that a length takes.
data Form (n : ℕ) : Type 0 where
  in_nibble : n < 15 → Form n
  in_byte : 15 ≤ n → n < 270 → Form n
  in_u16 : 270 ≤ n → Form n

form : (n : ℕ) → Form n
form n = elim (dec_lt n 15) [
  | yes short ↦ in_nibble short
  | no long ↦ elim (dec_lt n 270) [
    | yes middle ↦ in_byte (omega arith) middle
    | no most ↦ in_u16 (omega arith)
  ]
]

module _ (w : BitWriter) (n : ℕ) where
  writes_none : n < 15 → write_extra_length_bytes w n ≡ w
  unfolding write_extra_length_bytes
  writes_none h = let short : ltb n 15 ≡ true = ground arith in rw short refl

  writes_byte : 15 ≤ n → n < 270 → write_extra_length_bytes w n ≡ write_byte w (n - 15)
  unfolding write_extra_length_bytes
  writes_byte h k =
      let long : ltb n 15 ≡ false = ground arith in
      let fits : ltb 255 (n - 15) ≡ false = ground arith in
      let last : (n - 15 == 255) ≡ false = ground arith in rw (long, fits, last) refl

  writes_u16 : 270 ≤ n → n ≤ 65535 → write_extra_length_bytes w n ≡ write_u16 (write_byte w 255) n
  unfolding write_extra_length_bytes
  writes_u16 h k =
      let long : ltb n 15 ≡ false = ground arith in
      let whole : n % 65536 ≡ n = omega arith in
      elim (dec_lt 270 n) [
        | yes over ↦ let cut : ltb 255 (n - 15) ≡ true = ground arith in rw (long, cut, whole) refl
        | no exact ↦
            let cut : ltb 255 (n - 15) ≡ false = ground arith in
            let same : n - 15 ≡ 255 = omega arith in rw (long, cut, same, whole) refl
      ]

  header_short : n < 15 → length_header n ≡ n
  unfolding length_header
  header_short h = ground arith

  header_long : 15 ≤ n → length_header n ≡ 15
  unfolding length_header
  header_long h = ground arith

module _ (r : BitReader) where
  reads_none : (hdr : ℕ) → hdr < 15 → read_length r hdr ≡ (hdr, r)
  unfolding read_length
  reads_none hdr h = let short : (hdr == 15) ≡ false = ground arith in rw short refl

  reads_byte :
      (b : ℕ) → (read_byte r).0 ≡ b → b < 255 → read_length r 15 ≡ (15 + b, (read_byte r).1)
  unfolding read_length
  reads_byte b e h = let last : (15 + b == 270) ≡ false = ground arith in rw (e, last) refl

  reads_u16 : (read_byte r).0 ≡ 255 → read_length r 15 ≡ read_u16 (read_byte r).1
  unfolding read_length
  reads_u16 e = rw e refl

-- The reader that has read the length: it is the written one, and its window is unchanged.
pub record Reads (final : Bytes) (start : ℕ) (r : BitReader) (w' : BitWriter) (future : BitList)
    (hdr len : ℕ) : Type 0 where
  pub value : (read_length r hdr).0 ≡ len
  pub after : Sync final start (read_length r hdr).1 w' future

Reads-of :
    (final : Bytes) (start : ℕ) (r r' : BitReader) (w' w'' : BitWriter) (future : BitList)
    (hdr hdr' len : ℕ)
    → hdr ≡ hdr'
    → w' ≡ w''
    → read_length r hdr' ≡ (len, r')
    → Sync final start r' w'' future
    → Reads final start r w' future hdr len
Reads-of final start r r' w' w'' future hdr hdr' len eh ew e s =
    let e' : read_length r hdr ≡ (len, r') = ap (read_length r) eh ∙ e in
    record {
      value = ap (λ (x : ℕ × BitReader). x.0) e';
      after =
          subst (λ (x : BitWriter). Sync final start (read_length r hdr).1 x future) (sym ew)
            (subst (λ (x : ℕ × BitReader). Sync final start x.1 w'' future) (sym e') s);
    }

module _ (w : BitWriter) (pending : BitList) (h : Holds w pending) (n : ℕ) (small : n ≤ 65535) where
  pub write_extra-Holds : Holds (write_extra_length_bytes w n) pending
  write_extra-Holds = elim (form n) [
    | in_nibble short ↦ rw (writes_none w n short) h
    | in_byte long middle ↦ rw (writes_byte w n long middle) (write_byte-Holds w pending h (n - 15))
    | in_u16 most ↦
        rw (writes_u16 w n most small)
          (write_u16-Holds (write_byte w 255) pending (write_byte-Holds w pending h 255) n)
  ]

  module _ (final : Bytes) (future : BitList)
      (f : Final final (write_extra_length_bytes w n) pending future) where
    as-Final : (w' : BitWriter) → write_extra_length_bytes w n ≡ w' → Final final w' pending future
    as-Final w' e = subst (λ (x : BitWriter). Final final x pending future) e f

    pub write_extra-Final : Final final w pending future
    write_extra-Final = elim (form n) [
      | in_nibble short ↦ as-Final w (writes_none w n short)
      | in_byte long middle ↦
          (write_byte-Final w pending h (n - 15) final future
            (as-Final _ (writes_byte w n long middle))).0
      | in_u16 most ↦
          (write_byte-Final w pending h 255 final future
            (write_u16-Final (write_byte w 255) pending (write_byte-Holds w pending h 255) n final
              future (omega arith) (as-Final _ (writes_u16 w n most small))).0).0
    ]

    module _ (start : ℕ) (r : BitReader) (s : Sync final start r w future)
        (both : 32 ≤ r.bits_left + w.bit_count) where
      pub read_length-Sync :
          Reads final start r (write_extra_length_bytes w n) future (length_header n) n
      read_length-Sync = elim (form n) [
        | in_nibble short ↦
            Reads-of final start r r _ w future _ n n (header_short w n short)
              (writes_none w n short) (reads_none r n short) s
        | in_byte long middle ↦
            let (g, inside, there) =
              write_byte-Final w pending h (n - 15) final future
                (as-Final _ (writes_byte w n long middle)) in
            let (value, after, kept) =
              read_byte-Sync final start r w future h.few s both (n - 15) inside there in
            let whole : 15 + (n - 15) ≡ n = omega arith in
            Reads-of final start r (read_byte r).1 _ (write_byte w (n - 15)) future _ 15 n
              (header_long w n long) (writes_byte w n long middle)
              (reads_byte r (n - 15) value (omega arith)
                ∙ ap (λ (x : ℕ). (x, (read_byte r).1)) whole)
              after
        | in_u16 most ↦
            let w1 = write_byte w 255 in
            let h1 = write_byte-Holds w pending h 255 in
            let (f1, inside1, there1) =
              write_u16-Final w1 pending h1 n final future (omega arith)
                (as-Final _ (writes_u16 w n most small)) in
            let (f0, inside, there) = write_byte-Final w pending h 255 final future f1 in
            let (value, after, kept) =
              read_byte-Sync final start r w future h.few s both 255 inside there in
            let count : w1.bit_count ≡ w.bit_count = unfold write_byte in refl in
            let (value1, after1) =
              read_u16-Sync final start (read_byte r).1 w1 future h1.few after
                (omega (arith, kept, count)) n inside1 there1 in
            Reads-of final start r (read_u16 (read_byte r).1).1 _ (write_u16 w1 n) future _ 15 n
              (header_long w n (omega arith)) (writes_u16 w n most small)
              (reads_u16 r value ∙ ap (λ (x : ℕ). (x, (read_u16 (read_byte r).1).1)) value1) after1
      ]

-- Removing bits and reading the length do not touch each other.
pub read_length-remove_bits :
    (r : BitReader) (n hdr : ℕ)
    → read_length (remove_bits r n) hdr
      ≡ ((read_length r hdr).0, remove_bits (read_length r hdr).1 n)
unfolding read_length remove_bits
read_length-remove_bits r n hdr = elim (Bool-cases (hdr == 15)) [
  | inr short ↦ rw short refl
  | inl long ↦ elim (Bool-cases (leb (length r.input) r.pos)) [
    | inl ended ↦ rw (long, ended) refl
    | inr more ↦ elim (Bool-cases (15 + byte_at r.input r.pos == 270)) [
      | inr one ↦ rw (long, more, one) refl
      | inl two ↦ elim (Bool-cases (ltb (length r.input - (r.pos + 1)) 2)) [
        | inl cut ↦ rw (long, more, two, cut) refl
        | inr whole ↦ rw (long, more, two, whole) refl
      ]
    ]
  ]
]

pub read_length-bits_left :
    (r : BitReader) (hdr : ℕ) → (read_length r hdr).1.bits_left ≡ r.bits_left
unfolding read_length
read_length-bits_left r hdr = elim (Bool-cases (hdr == 15)) [
  | inr short ↦ rw short refl
  | inl long ↦ elim (Bool-cases (leb (length r.input) r.pos)) [
    | inl ended ↦ rw (long, ended) refl
    | inr more ↦ elim (Bool-cases (15 + byte_at r.input r.pos == 270)) [
      | inr one ↦ rw (long, more, one) refl
      | inl two ↦ elim (Bool-cases (ltb (length r.input - (r.pos + 1)) 2)) [
        | inl cut ↦ rw (long, more, two, cut) refl
        | inr whole ↦ rw (long, more, two, whole) refl
      ]
    ]
  ]
]
