-- ===== src/Xpress/BitWriter.antt =====
-- xpress/bitwriter.go: the output stream, in which 16-bit coding units of bits are interleaved with
-- raw bytes. `|` joins bits that do not overlap, so it is a sum here. The buffer's capacity is left
-- out: only its length and its bytes are ever read.
use gowim.Base.{
  ℕ, ◌+◌, ◌-◌, ◌*◌, ◌/◌, ◌%◌, ◌^◌, [], ◌∷◌, ◌++◌, length, take, replicate, ltb, ◌==◌, if◌then◌else◌,
}
use gowim.Bytes.{Bytes, bytes2, write_at}

pub record BitWriter : Type 0 where
  pub out : Bytes
  pub bit_buf : ℕ
  pub bit_count : ℕ
  pub next_bits : ℕ
  pub next_bits2 : ℕ
  pub next_byte : ℕ

-- At least `n` bytes, with zeros at the end.
unfoldable pub grow_to : Bytes → ℕ → Bytes
grow_to out n = out ++ replicate (n - length out) 0

unfoldable pub new_bit_writer : Bytes → ℕ → BitWriter
unfolding grow_to
new_bit_writer out start = record {
  out = grow_to out (start + 4);
  bit_buf = 0;
  bit_count = 0;
  next_bits = start;
  next_bits2 = start + 2;
  next_byte = start + 4;
}

-- A full coding unit goes to the oldest slot, and a new slot opens behind the raw bytes.
unfoldable pub put_unit : BitWriter → BitWriter
unfolding grow_to
put_unit w =
    let count = w.bit_count - 16 in
    let val = w.bit_buf / 2 ^ count % 65536 in
    let out = write_at (grow_to w.out (w.next_bits + 2)) w.next_bits (bytes2 val) in
    record {
      out = grow_to out (w.next_byte + 2);
      bit_buf = w.bit_buf;
      bit_count = count;
      next_bits = w.next_bits2;
      next_bits2 = w.next_byte;
      next_byte = w.next_byte + 2;
    }

unfoldable pub push_bits : BitWriter → (bits num_bits : ℕ) → BitWriter
push_bits w bits n = record w {
  bit_buf = (w.bit_buf * 2 ^ n) % 4_294_967_296 + bits;
  bit_count = w.bit_count + n;
}

unfoldable pub write_bits : BitWriter → (bits num_bits : ℕ) → BitWriter
unfolding push_bits put_unit
write_bits w bits n =
    if n == 0
    then w
    else if ltb 16 (w.bit_count + n)
    then put_unit (push_bits w bits n)
    else push_bits w bits n

unfoldable pub write_byte : BitWriter → ℕ → BitWriter
unfolding grow_to
write_byte w b = record w {
  out = write_at (grow_to w.out (w.next_byte + 1)) w.next_byte (b ∷ []);
  next_byte = w.next_byte + 1;
}

unfoldable pub write_u16 : BitWriter → ℕ → BitWriter
unfolding grow_to
write_u16 w v = record w {
  out = write_at (grow_to w.out (w.next_byte + 2)) w.next_byte (bytes2 v);
  next_byte = w.next_byte + 2;
}

-- The last coding unit, filled up with zeros, and a zero in the slot behind it.
unfoldable pub flush : BitWriter → Bytes
unfolding grow_to
flush w =
    let val = (w.bit_buf * 2 ^ (16 - w.bit_count)) % 4_294_967_296 % 65536 in
    let out = write_at (grow_to w.out (w.next_bits + 2)) w.next_bits (bytes2 val) in
    let out2 = write_at (grow_to out (w.next_bits2 + 2)) w.next_bits2 (bytes2 0) in
    take w.next_byte (grow_to out2 w.next_byte)
