-- ===== src/Xpress/Stream/Take.antt =====
-- The reader's operations, each beside the writer's: bits are read where bits were written, and raw
-- bytes where raw bytes were.
use gowim.Base.{
  ℕ, ◌+◌, ◌-◌, ◌*◌, ◌/◌, ◌%◌, ◌^◌, ◌≤◌, ◌<◌, ◌≡◌, inl, inr, refl, ap, sym, ◌∙◌, ◌++◌, length, drop,
  arith, length-drop, ltb, leb, ◌==◌, Bool-cases, drop-append, false,
}
use gowim.Bytes.{Bytes, byte_at, u16_at}
use gowim.Xpress.BitList.{BitList, AllBits, num, to_bits, length-to_bits, num-zero}
use gowim.Xpress.BitReader.{BitReader, peek_bits, remove_bits, read_byte, read_u16}
use gowim.Xpress.BitWriter.{BitWriter, write_bits, push_bits, put_unit, write_byte, write_u16}
use gowim.Xpress.Stream.Sync.{Sync, Phase, byte_at-drop, u16_at-drop}
use gowim.Xpress.Stream.Window.{window, window-peek, window-remove}

drop-to_bits : (n v : ℕ) (future : BitList) → drop n (to_bits n v ++ future) ≡ future
drop-to_bits n v future =
    ap (λ (m : ℕ). drop m (to_bits n v ++ future)) (sym (length-to_bits n v))
    ∙ drop-append (to_bits n v) future

bits_left-le : (r : BitReader) (w : BitWriter) (start : ℕ) → Phase r w start → r.bits_left ≤ 32
bits_left-le r w start p = ground arith

num-none : (n : ℕ) (bits : BitList) → n ≡ 0 → num 0 n bits ≡ 0
num-none n bits e = ap (λ (m : ℕ). num 0 m bits) e ∙ num-zero bits

pub peek_bits-Sync :
    (final : Bytes) (start : ℕ) (r : BitReader) (w : BitWriter) (future : BitList) (n : ℕ)
    → Sync final start r w future
    → AllBits future
    → n ≤ r.bits_left
    → peek_bits r n ≡ num 0 n future
unfolding peek_bits
peek_bits-Sync final start r w future n s bits some = elim (Bool-cases (n == 0)) [
  | inl nothing ↦ rw nothing (sym (num-none n future (ground arith)))
  | inr bits_wanted ↦ rw bits_wanted (
      ap (λ (x : ℕ). x / 2 ^ (32 - n)) s.loaded
      ∙ window-peek r.bits_left n future bits some (bits_left-le r w start s.phase))
]

module _ (r : BitReader) (w : BitWriter) (start v n : ℕ) (few : w.bit_count ≤ 16)
    (some : n ≤ r.bits_left) (small : n ≤ 16) where
  unmoved : n ≡ 0 → Phase r w start → Phase (remove_bits r n) w start
  unfolding remove_bits
  unmoved e (inl p) = inl (omega arith, p.1, p.2, p.3)
  unmoved e (inr (inl p)) = inr (inl (omega arith, p.1, p.2))
  unmoved e (inr (inr p)) = inr (inr (omega arith, p.1))

  push_bits-Phase : Phase r w start → Phase (remove_bits r n) (push_bits w v n) start
  unfolding push_bits remove_bits
  push_bits-Phase (inl p) = inl (omega arith, p.1, p.2, p.3)
  push_bits-Phase (inr (inl p)) = inr (inl (omega arith, p.1, p.2))
  push_bits-Phase (inr (inr p)) = inr (inr (omega arith, p.1))

  put_unit-Phase :
      16 < w.bit_count + n
      → Phase r w start
      → Phase (remove_bits r n) (put_unit (push_bits w v n)) start
  unfolding push_bits put_unit remove_bits
  put_unit-Phase full (inl p) = absurd (omega arith)
  put_unit-Phase full (inr (inl p)) = absurd (omega arith)
  put_unit-Phase full (inr (inr p)) = inr (inl (omega arith, p.1, refl))

  write_bits-Phase : Phase r w start → Phase (remove_bits r n) (write_bits w v n) start
  unfolding write_bits remove_bits
  write_bits-Phase p = elim (Bool-cases (n == 0)) [
    | inl nothing ↦ rw nothing (unmoved (ground arith) p)
    | inr some_bits ↦ elim (Bool-cases (ltb 16 (w.bit_count + n))) [
      | inl full ↦ rw (some_bits, full) (put_unit-Phase (ground arith) p)
      | inr fits ↦ rw (some_bits, fits) (push_bits-Phase p)
    ]
  ]

pub remove_bits-Sync :
    (final : Bytes) (start : ℕ) (r : BitReader) (w : BitWriter) (future : BitList) (v n : ℕ)
    → Sync final start r w (to_bits n v ++ future)
    → AllBits (to_bits n v ++ future)
    → w.bit_count ≤ 16
    → n ≤ r.bits_left
    → n ≤ 16
    → Sync final start (remove_bits r n) (write_bits w v n) future
unfolding remove_bits
remove_bits-Sync final start r w future v n s bits few some small = record {
  source = s.source;
  loaded =
      ap (λ (x : ℕ). (x * 2 ^ n) % 4_294_967_296) s.loaded
      ∙ window-remove r.bits_left n (to_bits n v ++ future) bits some
          (bits_left-le r w start s.phase)
      ∙ ap (window (r.bits_left - n)) (drop-to_bits n v future);
  phase = write_bits-Phase r w start v n few some small s.phase;
}

-- Raw bytes are read once both open units are loaded.
module _ (final : Bytes) (start : ℕ) (r : BitReader) (w : BitWriter) (future : BitList)
    (few : w.bit_count ≤ 16) (s : Sync final start r w future)
    (both : 32 ≤ r.bits_left + w.bit_count) where
  at_cursor : start + r.pos ≡ w.next_byte
  at_cursor = from_phase s.phase
    where
      from_phase : Phase r w start → start + r.pos ≡ w.next_byte
      from_phase p = ground arith

  both_loaded : Phase r w start → r.bits_left + w.bit_count ≡ 32
  both_loaded p = ground arith

  source_length : length r.input ≡ length final - start
  source_length = ap (λ (b : Bytes). length b) s.source ∙ length-drop start final

  pub read_byte-Sync :
      (b : ℕ)
      → w.next_byte < length final
      → byte_at final w.next_byte ≡ b
      → ((read_byte r).0 ≡ b)
        × Sync final start (read_byte r).1 (write_byte w b) future
        × ((read_byte r).1.bits_left ≡ r.bits_left)
  unfolding read_byte write_byte
  read_byte-Sync b inside e =
      let there : leb (length r.input) r.pos ≡ false = ground (arith, source_length, at_cursor) in
      rw there (
        ap (λ (x : Bytes). byte_at x r.pos) s.source
            ∙ byte_at-drop start final r.pos
            ∙ ap (byte_at final) at_cursor
            ∙ e,
        record {
          source = s.source;
          loaded = s.loaded;
          phase = inr (inr (both_loaded s.phase, omega (arith, at_cursor)));
        },
        refl,
      )

  pub read_u16-Sync :
      (v : ℕ)
      → w.next_byte + 2 ≤ length final
      → u16_at final w.next_byte ≡ v
      → ((read_u16 r).0 ≡ v) × Sync final start (read_u16 r).1 (write_u16 w v) future
  unfolding read_u16 write_u16
  read_u16-Sync v inside e =
      let there : ltb (length r.input - r.pos) 2 ≡ false =
        ground (arith, source_length, at_cursor) in
      rw there (
        ap (λ (x : Bytes). u16_at x r.pos) s.source
            ∙ u16_at-drop start final r.pos
            ∙ ap (u16_at final) at_cursor
            ∙ e,
        record {
          source = s.source;
          loaded = s.loaded;
          phase = inr (inr (both_loaded s.phase, omega (arith, at_cursor)));
        },
      )
