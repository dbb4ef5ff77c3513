-- ===== src/Xpress/Stream/Flush.antt =====
-- `flush` finishes the buffer: the pending bits, filled up with zeros, and a zero unit.
use gowim.Base.{
  ℕ, ◌+◌, ◌-◌, ◌*◌, ◌%◌, ◌^◌, ◌≤◌, ◌<◌, ◌≡◌, ◌⊎◌, inl, inr, ap, sym, ◌∙◌, [], ◌++◌, length, arith,
  length-append, append-nil, length-take,
}
use gowim.Bytes.{Bytes, byte_at, u16_at, bytes2, write_at}
use gowim.Xpress.BitList.{BitList, num, num-lt, num-nil, drop_all}
use gowim.Xpress.BitWriter.{BitWriter, flush, grow_to}
use gowim.Xpress.Stream.Writes.{
  byte_at-grow_to, length-grow_to, byte_at-take, u16_at-same, placed_other, placed_u16,
}
use gowim.Xpress.Stream.Final.{Final, IsSettled}
use gowim.Xpress.Stream.Pending.{Holds, last_unit}

module _ (w : BitWriter) (pending : BitList) (h : Holds w pending) where
  -- What `flush` leaves in the two slots.
  flush1 : Bytes
  flush1 =
      write_at (grow_to w.out (w.next_bits + 2)) w.next_bits
        (bytes2 ((w.bit_buf * 2 ^ (16 - w.bit_count)) % 4_294_967_296 % 65536))

  flush2 : Bytes
  flush2 = write_at (grow_to flush1 (w.next_bits2 + 2)) w.next_bits2 (bytes2 0)

  flush_at : (k : ℕ) → k < w.next_byte → byte_at (flush w) k ≡ byte_at flush2 k
  unfolding flush flush1 flush2
  flush_at k inside = byte_at-take w.next_byte _ k inside ∙ byte_at-grow_to _ w.next_byte k

  beside2 : {k : ℕ} → IsSettled w k → (k < w.next_bits2) ⊎ (w.next_bits2 + 2 ≤ k)
  beside2 (inl a) = inl (omega (arith, h.slot))
  beside2 (inr (inl a)) = inl a.1
  beside2 (inr (inr a)) = inr a

  beside1 : {k : ℕ} → IsSettled w k → (k < w.next_bits) ⊎ (w.next_bits + 2 ≤ k)
  beside1 (inl a) = inl a
  beside1 (inr (inl a)) = inr a.0
  beside1 (inr (inr a)) = inr (omega (arith, h.slot))

  flush_other : (k : ℕ) → k < w.next_byte → IsSettled w k → byte_at (flush w) k ≡ byte_at w.out k
  unfolding flush1 flush2
  flush_other k inside settled =
      flush_at k inside
      ∙ placed_other flush1 (w.next_bits2 + 2) w.next_bits2 (bytes2 0) k (beside2 settled)
      ∙ placed_other w.out (w.next_bits + 2) w.next_bits _ k (beside1 settled)

  flush_unit1 : u16_at (flush w) w.next_bits ≡ num 0 16 pending
  unfolding flush1 flush2
  flush_unit1 =
      u16_at-same (flush w) flush2 w.next_bits
        (flush_at w.next_bits (omega (arith, h.slot, h.slot2)))
        (flush_at (w.next_bits + 1) (omega (arith, h.slot, h.slot2)))
      ∙ u16_at-same flush2 flush1 w.next_bits
          (placed_other flush1 (w.next_bits2 + 2) w.next_bits2 (bytes2 0) w.next_bits
            (inl (omega (arith, h.slot))))
          (placed_other flush1 (w.next_bits2 + 2) w.next_bits2 (bytes2 0) (w.next_bits + 1)
            (inl (omega (arith, h.slot))))
      ∙ rw (last_unit w.bit_buf w.bit_count pending h.few h.count h.low) (
          placed_u16 w.out (w.next_bits + 2) w.next_bits (num 0 16 pending) (omega arith)
            (num-lt 16 pending h.bits))

  flush_unit2 : u16_at (flush w) w.next_bits2 ≡ 0
  unfolding flush2
  flush_unit2 =
      u16_at-same (flush w) flush2 w.next_bits2 (flush_at w.next_bits2 (omega (arith, h.slot2)))
        (flush_at (w.next_bits2 + 1) (omega (arith, h.slot2)))
      ∙ placed_u16 flush1 (w.next_bits2 + 2) w.next_bits2 0 (omega arith) (omega arith)

  flush_reach : w.next_byte ≤ length (flush w)
  unfolding flush flush1 flush2
  flush_reach = omega (
    arith,
    length-take w.next_byte (grow_to flush2 w.next_byte),
    length-grow_to flush2 w.next_byte,
  )

  pub flush-Final : Final (flush w) w pending []
  flush-Final = record {
    reach = flush_reach;
    unit1 = flush_unit1 ∙ ap (num 0 16) (sym (append-nil pending));
    unit2 =
        flush_unit2
        ∙ sym (
            ap (num 0 16) (
              drop_all 16 (pending ++ []) (omega (arith, length-append pending [], h.count, h.few)))
            ∙ num-nil 16 0);
    kept = flush_other;
  }
