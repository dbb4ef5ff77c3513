-- ===== src/Xpress/Stream/Sync.antt =====
-- The reader keeps step with the writer: at the same point of the items, the reader's cursor is at
-- the writer's next slot to be loaded, and its window holds the bits that come next.
use gowim.Base.{
  ℕ, zero, suc, ◌+◌, ◌-◌, ◌*◌, ◌^◌, ◌≤◌, ◌<◌, ◌≡◌, ◌⊎◌, inl, inr, refl, ap, ◌∙◌, [], ◌∷◌, ◌++◌,
  length, drop, arith, length-drop, ltb, leb, Bool-cases, false,
}
use gowim.Bytes.{Bytes, byte_at, u16_at}
use gowim.Xpress.BitList.{BitList, num}
use gowim.Xpress.BitReader.{BitReader, load_unit, ensure_bits}
use gowim.Xpress.BitWriter.{BitWriter}
use gowim.Xpress.Stream.Final.{Final}
use gowim.Xpress.Stream.Pending.{Holds}
use gowim.Xpress.Stream.Window.{window, window-load}

-- Nothing is loaded yet; the unit in the oldest slot is; or both open units are, and the cursor is
-- where raw bytes go.
abbrev pub Phase : BitReader → BitWriter → ℕ → Type 0
Phase r w start =
    ((r.bits_left + w.bit_count ≡ 0)
      × (start + r.pos ≡ w.next_bits)
      × (w.next_bits2 ≡ w.next_bits + 2)
      × (w.next_byte ≡ w.next_bits + 4))
    ⊎ ((r.bits_left + w.bit_count ≡ 16)
        × (start + r.pos ≡ w.next_bits2)
        × (w.next_byte ≡ w.next_bits2 + 2))
    ⊎ ((r.bits_left + w.bit_count ≡ 32) × (start + r.pos ≡ w.next_byte))

pub record Sync (final : Bytes) (start : ℕ) (r : BitReader) (w : BitWriter) (future : BitList)
    : Type 0 where
  pub source : r.input ≡ drop start final
  pub loaded : r.bit_buf ≡ window r.bits_left future
  pub phase : Phase r w start

pub byte_at-drop : (s : ℕ) (xs : Bytes) (k : ℕ) → byte_at (drop s xs) k ≡ byte_at xs (s + k)
byte_at-drop zero xs k = ap (byte_at xs) (omega arith)
byte_at-drop (suc s) [] k = refl
byte_at-drop (suc s) (x ∷ xs) k =
    byte_at-drop s xs k ∙ ap (byte_at (x ∷ xs)) (let e : suc (s + k) ≡ suc s + k = omega arith in e)

pub u16_at-drop : (s : ℕ) (xs : Bytes) (k : ℕ) → u16_at (drop s xs) k ≡ u16_at xs (s + k)
u16_at-drop s xs k =
    let e : s + (k + 1) ≡ s + k + 1 = omega arith in
    rw (byte_at-drop s xs k, byte_at-drop s xs (k + 1), e) refl

drop-over : (m k : ℕ) (xs ys : BitList) → m ≡ length xs + k → drop m (xs ++ ys) ≡ drop k ys
drop-over m k [] ys e = ap (λ (n : ℕ). drop n ys) (omega arith)
drop-over zero k (x ∷ xs) ys e = absurd (omega arith)
drop-over (suc m) k (x ∷ xs) ys e = drop-over m k xs ys (omega arith)

-- A step of loading, where the unit at the cursor holds the bits behind those in the window.
module _ (final : Bytes) (start : ℕ) (r : BitReader) (future : BitList)
    (source : r.input ≡ drop start final) (loaded : r.bit_buf ≡ window r.bits_left future)
    (inside : start + r.pos + 2 ≤ length final) where
  room : ltb (length r.input - r.pos) 2 ≡ false
  room =
      let e : length r.input ≡ length final - start =
        ap (λ (b : Bytes). length b) source ∙ length-drop start final in
      ground arith

  load_unit-pos : (load_unit r).pos ≡ r.pos + 2
  unfolding load_unit
  load_unit-pos = rw room refl

  load_unit-buf :
      r.bits_left ≤ 16
      → u16_at final (start + r.pos) ≡ num 0 16 (drop r.bits_left future)
      → (load_unit r).bit_buf ≡ window (r.bits_left + 16) future
  unfolding load_unit
  load_unit-buf few word = rw room (
      ap (λ (x : ℕ). r.bit_buf + x * 2 ^ (16 - r.bits_left))
        (ap (λ (b : Bytes). u16_at b r.pos) source ∙ u16_at-drop start final r.pos ∙ word)
      ∙ ap (λ (x : ℕ). x + num 0 16 (drop r.bits_left future) * 2 ^ (16 - r.bits_left)) loaded
      ∙ window-load r.bits_left future few)

module _ (final : Bytes) (start : ℕ) (r : BitReader) (w : BitWriter) (pending future : BitList)
    (h : Holds w pending) (f : Final final w pending future) (s : Sync final start r w future) where
  load_with :
      start + r.pos + 2 ≤ length final
      → r.bits_left ≤ 16
      → u16_at final (start + r.pos) ≡ num 0 16 (drop r.bits_left future)
      → Phase (record r { pos = r.pos + 2; bits_left = r.bits_left + 16 }) w start
      → Sync final start (load_unit r) w future
  load_with inside few word phase = record {
    source = unfold load_unit in s.source;
    loaded =
        unfold load_unit in load_unit-buf final start r future s.source s.loaded inside few word;
    phase =
        let e = load_unit-pos final start r future s.source s.loaded inside in
        let left : (load_unit r).bits_left ≡ r.bits_left + 16 = unfold load_unit in refl in
        rw (e, left) phase;
  }

  unit_at :
      (slot : ℕ)
      → start + r.pos ≡ slot
      → (word : ℕ) → u16_at final slot ≡ word
      → u16_at final (start + r.pos) ≡ word
  unit_at slot e word q = ap (u16_at final) e ∙ q

  load_unit-Sync : r.bits_left < 16 → Sync final start (load_unit r) w future
  load_unit-Sync few = by_phase s.phase
    where
      by_phase : Phase r w start → Sync final start (load_unit r) w future
      by_phase (inl (none_yet, at, e2, e3)) =
          load_with (omega (arith, f.reach)) (omega arith)
            (unit_at w.next_bits at _ f.unit1
              ∙ ap (num 0 16) (drop-over 0 r.bits_left pending future (omega (arith, h.count))))
            (inr (inl (omega arith, omega arith, omega arith)))
      by_phase (inr (inl (one, at, e))) =
          load_with (omega (arith, f.reach)) (omega arith)
            (unit_at w.next_bits2 at _ f.unit2
              ∙ ap (num 0 16) (drop-over 16 r.bits_left pending future (omega (arith, h.count))))
            (inr (inr (omega arith, omega arith)))
      by_phase (inr (inr (both, at))) = absurd (omega (arith, h.few))

  pub ensure_bits-Sync :
      (n : ℕ)
      → n ≤ 16
      → Sync final start (ensure_bits r n) w future × (n ≤ (ensure_bits r n).bits_left)
  unfolding ensure_bits
  ensure_bits-Sync n some = elim (Bool-cases (leb n r.bits_left)) [
    | inl enough ↦ rw enough (s, ground arith)
    | inr short ↦ rw short (load_unit-Sync (ground arith), (unfold load_unit in omega arith))
  ]
