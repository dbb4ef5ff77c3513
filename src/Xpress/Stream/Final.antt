-- ===== src/Xpress/Stream/Final.antt =====
-- What the finished buffer holds, told from the state of the writer at an earlier point: the two
-- coding units that are still open, and the bytes that no later write touches.
use gowim.Base.{
  ℕ, ◌+◌, ◌-◌, ◌/◌, ◌%◌, ◌^◌, ◌≤◌, ◌<◌, ◌≡◌, ◌⊎◌, inl, inr, ap, sym, ◌∙◌, [], ◌∷◌, ◌++◌, length,
  drop, arith, length-drop, append_assoc, ltb, ◌==◌, Bool-cases,
}
use gowim.Bytes.{Bytes, byte_at, u16_at, bytes2, write_at}
use gowim.Xpress.BitList.{
  BitList, AllBits, AllBits-drop, num, to_bits, num-lt, to_bits-zero, num-append_long,
  drop-append_long,
}
use gowim.Xpress.BitWriter.{
  BitWriter, push_bits, put_unit, write_bits, write_byte, write_u16, grow_to,
}
use gowim.Xpress.Stream.Writes.{
  byte_at-grow_to, length-grow_to, u16_at-same, length-placed, placed_other, placed_u16,
  placed_byte, u16_at-grow_to,
}
use gowim.Xpress.Stream.Pending.{Holds, Pushed, push_bits-Pushed, unit_high, unit_low}

-- A position outside the two open slots.
abbrev pub IsSettled : BitWriter → ℕ → Type 0
IsSettled w k =
    (k < w.next_bits) ⊎ ((w.next_bits + 2 ≤ k) × (k < w.next_bits2)) ⊎ (w.next_bits2 + 2 ≤ k)

-- The buffer `final`, where `future` are the bits that are still to be written.
pub record Final (final : Bytes) (w : BitWriter) (pending future : BitList) : Type 0 where
  pub reach : w.next_byte ≤ length final
  pub unit1 : u16_at final w.next_bits ≡ num 0 16 (pending ++ future)
  pub unit2 : u16_at final w.next_bits2 ≡ num 0 16 (drop 16 (pending ++ future))
  pub kept : (k : ℕ) → k < w.next_byte → IsSettled w k → byte_at final k ≡ byte_at w.out k

-- The unit that `put_unit` stores, and the bytes that it leaves alone.
module _ (w : BitWriter) where
  put_unit-other :
      (k : ℕ)
      → (k < w.next_bits) ⊎ (w.next_bits + 2 ≤ k)
      → byte_at (put_unit w).out k ≡ byte_at w.out k
  unfolding put_unit
  put_unit-other k apart = byte_at-grow_to _ _ k ∙ placed_other w.out _ w.next_bits _ k apart

  put_unit-extent :
      length w.out ≡ w.next_byte
      → w.next_bits + 2 ≤ w.next_byte
      → length (put_unit w).out ≡ w.next_byte + 2
  unfolding put_unit
  put_unit-extent e h =
      length-grow_to (write_at (grow_to w.out (w.next_bits + 2)) w.next_bits _) (w.next_byte + 2)
      ∙ omega (arith, length-placed w.out (w.next_bits + 2) w.next_bits _)

  put_unit-unit :
      (v : ℕ)
      → v < 65536
      → w.bit_buf / 2 ^ (w.bit_count - 16) % 65536 ≡ v
      → u16_at (put_unit w).out w.next_bits ≡ v
  unfolding put_unit
  put_unit-unit v small e = rw e (
      u16_at-grow_to _ (w.next_byte + 2) w.next_bits
      ∙ placed_u16 w.out (w.next_bits + 2) w.next_bits v (omega arith) (omega arith))

-- A full unit moves on: what is known of the buffer behind `put_unit` gives what is known in front.
module _ (w : BitWriter) (all : BitList) (count : length all ≡ w.bit_count)
    (full : 16 < w.bit_count) (low : w.bit_buf % 2 ^ w.bit_count ≡ num 0 w.bit_count all)
    (bits : AllBits all) (extent : length w.out ≡ w.next_byte)
    (slot : w.next_bits + 2 ≤ w.next_bits2) (slot2 : w.next_bits2 + 2 ≤ w.next_byte) where
  first_unit : u16_at (put_unit w).out w.next_bits ≡ num 0 16 all
  first_unit =
      put_unit-unit w (num 0 16 all) (num-lt 16 all bits)
        (unit_high w.bit_buf w.bit_count all (omega arith) bits low)

  put_unit-Holds : w.bit_count ≤ 32 → Holds (put_unit w) (drop 16 all)
  unfolding put_unit
  put_unit-Holds few = record {
    count = omega (arith, length-drop 16 all, count);
    few = omega arith;
    low = unit_low w.bit_buf w.bit_count all (omega arith) bits low;
    bits = AllBits-drop 16 all bits;
    extent = put_unit-extent w extent (omega arith);
    slot = slot2;
    slot2 = omega arith;
  }

  module _ (final : Bytes) (future : BitList)
      (f : Final final (put_unit w) (drop 16 all) future) where
    settled_kept :
        (k : ℕ)
        → k < w.next_byte
        → (k < w.next_bits2) ⊎ (w.next_bits2 + 2 ≤ k)
        → byte_at final k ≡ byte_at (put_unit w).out k
    unfolding put_unit
    settled_kept k h (inl before) = f.kept k (omega arith) (inl before)
    settled_kept k h (inr behind) = f.kept k (omega arith) (inr (inl (behind, h)))

    other_kept : (k : ℕ) → k < w.next_byte → IsSettled w k → byte_at final k ≡ byte_at w.out k
    other_kept k h (inl a) = settled_kept k h (inl (omega arith)) ∙ put_unit-other w k (inl a)
    other_kept k h (inr (inl a)) = settled_kept k h (inl a.1) ∙ put_unit-other w k (inr a.0)
    other_kept k h (inr (inr a)) = settled_kept k h (inr a) ∙ put_unit-other w k (inr (omega arith))

    long_enough : 16 ≤ length all
    long_enough = omega (arith, count)

    second_unit : u16_at final w.next_bits2 ≡ num 0 16 (drop 16 all ++ future)
    unfolding put_unit
    second_unit = f.unit1

    put_unit-Final : Final final w all future
    put_unit-Final = record {
      reach = let r : w.next_byte + 2 ≤ length final = unfold put_unit in f.reach in omega arith;
      unit1 =
          u16_at-same final (put_unit w).out w.next_bits
            (settled_kept w.next_bits (omega arith) (inl (omega arith)))
            (settled_kept (w.next_bits + 1) (omega arith) (inl (omega arith)))
          ∙ first_unit
          ∙ sym (num-append_long 16 0 all future long_enough);
      unit2 = second_unit ∙ ap (num 0 16) (sym (drop-append_long 16 all future long_enough));
      kept = other_kept;
    }

-- Bits that are written: the writer goes on holding what is pending, and the buffer that follows
-- from there holds the bits in front of the later ones.
abbrev pub Continues : BitWriter → BitList → BitWriter → BitList → Type 0
Continues w pending w' added =
    (pending' : BitList) × Holds w' pending'
    × ((final : Bytes) (future : BitList)
        → Final final w' pending' future
        → Final final w pending (added ++ future))

module _ (w : BitWriter) (pending : BitList) (v n : ℕ) (h : Holds w pending) where
  push_bits-Final :
      (final : Bytes) (future : BitList)
      → Final final (push_bits w v n) (pending ++ to_bits n v) future
      → Final final w pending (to_bits n v ++ future)
  unfolding push_bits
  push_bits-Final final future f = record {
    reach = f.reach;
    unit1 = f.unit1 ∙ ap (num 0 16) (append_assoc pending (to_bits n v) future);
    unit2 =
        f.unit2
        ∙ ap (λ (l : BitList). num 0 16 (drop 16 l)) (append_assoc pending (to_bits n v) future);
    kept = f.kept;
  }

  module _ (few : n ≤ 16) (small : v < 2 ^ n) where
    pushed : Pushed w pending v n h (push_bits w v n)
    pushed = push_bits-Pushed w pending v n h few small

    push_bits-Continues : w.bit_count + n ≤ 16 → Continues w pending (push_bits w v n) (to_bits n v)
    unfolding push_bits
    push_bits-Continues fits = (
      pending ++ to_bits n v,
      record {
        count = pushed.count;
        few = fits;
        low = pushed.low;
        bits = pushed.bits;
        extent = h.extent;
        slot = h.slot;
        slot2 = h.slot2;
      },
      push_bits-Final,
    )

    put_unit-Continues :
        16 < w.bit_count + n → Continues w pending (put_unit (push_bits w v n)) (to_bits n v)
    unfolding push_bits
    put_unit-Continues full =
        let w' = push_bits w v n in
        let all = pending ++ to_bits n v in
        (
          drop 16 all,
          put_unit-Holds w' all pushed.count full pushed.low pushed.bits h.extent h.slot h.slot2
              (omega (arith, h.few)),
          λ final future f. push_bits-Final final future (
              put_unit-Final w' all pushed.count full pushed.low pushed.bits h.extent h.slot h.slot2
                final future f),
        )

    pub write_bits-Continues : Continues w pending (write_bits w v n) (to_bits n v)
    unfolding write_bits
    write_bits-Continues = elim (Bool-cases (n == 0)) [
      | inl nothing ↦
          rw nothing (pending, h, λ final future f. rw (to_bits-zero n v (ground arith)) f)
      | inr some_bits ↦ elim (Bool-cases (ltb 16 (w.bit_count + n))) [
        | inl full ↦ rw (some_bits, full) (put_unit-Continues (ground arith))
        | inr fits ↦ rw (some_bits, fits) (push_bits-Continues (ground arith))
      ]
    ]

-- Raw bytes stand at the cursor, and leave the pending bits and the open slots alone.
module _ (w : BitWriter) (pending : BitList) (h : Holds w pending) where
  pub write_byte-Holds : (b : ℕ) → Holds (write_byte w b) pending
  unfolding write_byte
  write_byte-Holds b = record {
    count = h.count;
    few = h.few;
    low = h.low;
    bits = h.bits;
    extent = omega (arith, length-placed w.out (w.next_byte + 1) w.next_byte (b ∷ []), h.extent);
    slot = h.slot;
    slot2 = omega (arith, h.slot2);
  }

  pub write_u16-Holds : (v : ℕ) → Holds (write_u16 w v) pending
  unfolding write_u16
  write_u16-Holds v = record {
    count = h.count;
    few = h.few;
    low = h.low;
    bits = h.bits;
    extent = omega (arith, length-placed w.out (w.next_byte + 2) w.next_byte (bytes2 v), h.extent);
    slot = h.slot;
    slot2 = omega (arith, h.slot2);
  }

  pub write_byte-Final :
      (b : ℕ) (final : Bytes) (future : BitList)
      → Final final (write_byte w b) pending future
      → Final final w pending future
        × (w.next_byte < length final)
        × (byte_at final w.next_byte ≡ b)
  unfolding write_byte
  write_byte-Final b final future f = (
    record {
      reach = omega (arith, f.reach);
      unit1 = f.unit1;
      unit2 = f.unit2;
      kept = λ k inside settled.
          f.kept k (omega arith) settled
          ∙ placed_other w.out (w.next_byte + 1) w.next_byte (b ∷ []) k (inl inside);
    },
    omega (arith, f.reach),
    f.kept w.next_byte (omega arith) (inr (inr h.slot2))
        ∙ placed_byte w.out (w.next_byte + 1) w.next_byte b (omega arith),
  )

  pub write_u16-Final :
      (v : ℕ) (final : Bytes) (future : BitList)
      → v < 65536
      → Final final (write_u16 w v) pending future
      → Final final w pending future
        × (w.next_byte + 2 ≤ length final)
        × (u16_at final w.next_byte ≡ v)
  unfolding write_u16
  write_u16-Final v final future small f = (
    record {
      reach = omega (arith, f.reach);
      unit1 = f.unit1;
      unit2 = f.unit2;
      kept = λ k inside settled.
          f.kept k (omega arith) settled
          ∙ placed_other w.out (w.next_byte + 2) w.next_byte (bytes2 v) k (inl inside);
    },
    omega (arith, f.reach),
    u16_at-same final (write_at (grow_to w.out (w.next_byte + 2)) w.next_byte (bytes2 v))
          w.next_byte (f.kept w.next_byte (omega arith) (inr (inr h.slot2)))
          (f.kept (w.next_byte + 1) (omega arith) (inr (inr (omega (arith, h.slot2)))))
        ∙ placed_u16 w.out (w.next_byte + 2) w.next_byte v (omega arith) (omega (arith, small)),
  )
