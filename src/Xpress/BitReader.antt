-- ===== src/Xpress/BitReader.antt =====
-- xpress/bitreader.go: the input stream. One cursor serves the coding units of bits, which are kept
-- left-justified in 32 bits, and the raw bytes between them. `|` joins bits that do not overlap.
use gowim.Base.{ℕ, ◌+◌, ◌-◌, ◌*◌, ◌/◌, ◌%◌, ◌^◌, length, ltb, leb, ◌==◌, if◌then◌else◌}
use gowim.Bytes.{Bytes, byte_at, u16_at, join2}

pub record BitReader : Type 0 where
  pub input : Bytes
  pub pos : ℕ
  pub bit_buf : ℕ
  pub bits_left : ℕ

unfoldable pub new_bit_reader : Bytes → BitReader
new_bit_reader b = record { input = b; pos = 0; bit_buf = 0; bits_left = 0 }

-- A coding unit that is loaded; behind the end of the input its bits are 0.
unfoldable pub load_unit : BitReader → BitReader
unfolding join2
load_unit r =
    let whole = ltb (length r.input - r.pos) 2 in
    let word = if whole then 0 else u16_at r.input r.pos in
    record r {
      pos = if whole then r.pos else r.pos + 2;
      bit_buf = r.bit_buf + word * 2 ^ (16 - r.bits_left);
      bits_left = r.bits_left + 16;
    }

unfoldable pub ensure_bits : BitReader → ℕ → BitReader
unfolding load_unit
ensure_bits r n = if leb n r.bits_left then r else load_unit r

unfoldable pub peek_bits : BitReader → ℕ → ℕ
peek_bits r n = if n == 0 then 0 else r.bit_buf / 2 ^ (32 - n)

unfoldable pub remove_bits : BitReader → ℕ → BitReader
remove_bits r n = record r {
  bit_buf = (r.bit_buf * 2 ^ n) % 4_294_967_296;
  bits_left = r.bits_left - n;
}

unfoldable pub pop_bits : BitReader → ℕ → ℕ × BitReader
unfolding peek_bits remove_bits
pop_bits r n = (peek_bits r n, remove_bits r n)

unfoldable pub read_byte : BitReader → ℕ × BitReader
read_byte r =
    if leb (length r.input) r.pos
    then (0, r)
    else (byte_at r.input r.pos, record r { pos = r.pos + 1 })

unfoldable pub read_u16 : BitReader → ℕ × BitReader
unfolding join2
read_u16 r =
    if ltb (length r.input - r.pos) 2
    then (0, r)
    else (u16_at r.input r.pos, record r { pos = r.pos + 2 })
