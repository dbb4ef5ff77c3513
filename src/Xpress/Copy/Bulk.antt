-- ===== src/Xpress/Copy/Bulk.antt =====
-- The two paths of `xpressCopy` write the same bytes.
use gowim.Base.{
  ℕ, zero, suc, ◌+◌, ◌-◌, ◌≤◌, ◌<◌, ◌≡◌, refl, ap, sym, ◌∙◌, [], ◌∷◌, length, set, leb, arith, inl,
  inr, Bool-cases,
}
use gowim.Bytes.{Bytes, byte_at, slice, write_at, length-write_at}
use gowim.Xpress.Copy.{copy_loop, xpress_copy}

pub length-set : (dst : Bytes) (i v : ℕ) → length (set dst i v) ≡ length dst
length-set [] i v = refl
length-set (x ∷ dst) zero v = refl
length-set (x ∷ dst) (suc i) v = ap suc (length-set dst i v)

pub byte_at-set_self : (dst : Bytes) (i v : ℕ) → i < length dst → byte_at (set dst i v) i ≡ v
byte_at-set_self [] i v h = absurd (omega arith)
byte_at-set_self (x ∷ dst) zero v h = refl
byte_at-set_self (x ∷ dst) (suc i) v h = byte_at-set_self dst i v (omega arith)

-- A write leaves the bytes in front of it alone.
pub byte_at-set_before : (dst : Bytes) (i k v : ℕ) → k < i → byte_at (set dst i v) k ≡ byte_at dst k
byte_at-set_before [] i k v h = refl
byte_at-set_before (x ∷ dst) zero k v h = absurd (omega arith)
byte_at-set_before (x ∷ dst) (suc i) zero v h = refl
byte_at-set_before (x ∷ dst) (suc i) (suc k) v h = byte_at-set_before dst i k v (omega arith)

slice-set : (dst : Bytes) (i s n v : ℕ) → s + n ≤ i → slice (set dst i v) s n ≡ slice dst s n
slice-set [] i s n v h = refl
slice-set (x ∷ dst) zero zero zero v h = refl
slice-set (x ∷ dst) zero zero (suc n) v h = absurd (omega arith)
slice-set (x ∷ dst) zero (suc s) n v h = absurd (omega arith)
slice-set (x ∷ dst) (suc i) zero zero v h = refl
slice-set (x ∷ dst) (suc i) zero (suc n) v h = ap (◌∷◌ x) (slice-set dst i 0 n v (omega arith))
slice-set (x ∷ dst) (suc i) (suc s) n v h = slice-set dst i s n v (omega arith)

slice-suc :
    (dst : Bytes) (s n : ℕ)
    → s < length dst
    → slice dst s (suc n) ≡ byte_at dst s ∷ slice dst (suc s) n
slice-suc [] s n h = absurd (omega arith)
slice-suc (x ∷ dst) zero n h = refl
slice-suc (x ∷ dst) (suc s) n h = slice-suc dst s n (omega arith)

write_at-nil : (dst : Bytes) (i : ℕ) → write_at dst i [] ≡ dst
write_at-nil [] i = refl
write_at-nil (x ∷ dst) zero = refl
write_at-nil (x ∷ dst) (suc i) = ap (◌∷◌ x) (write_at-nil dst i)

write_at-cons :
    (dst : Bytes) (i b : ℕ) (bs : Bytes)
    → write_at dst i (b ∷ bs) ≡ write_at (set dst i b) (suc i) bs
write_at-cons [] i b bs = refl
write_at-cons (x ∷ dst) zero b bs = refl
write_at-cons (x ∷ dst) (suc i) b bs = ap (◌∷◌ x) (write_at-cons dst i b bs)

bulk-copy_loop :
    (n : ℕ) (dst : Bytes) (pos src : ℕ)
    → src + n ≤ pos
    → pos + n ≤ length dst
    → write_at dst pos (slice dst src n) ≡ copy_loop dst pos src n
unfolding copy_loop
bulk-copy_loop zero dst pos src h k = write_at-nil dst pos
bulk-copy_loop (suc n) dst pos src h k =
    let b = byte_at dst src in
    let e : suc src ≡ src + 1 = omega arith in
    let e' : suc pos ≡ pos + 1 = omega arith in
    rw (slice-suc dst src n (omega arith)) (
      write_at-cons dst pos b (slice dst (suc src) n)
      ∙ ap (write_at (set dst pos b) (suc pos))
          (sym (slice-set dst pos (suc src) n b (omega arith)))
      ∙ rw (e, e')
          (bulk-copy_loop n (set dst pos b) (pos + 1) (src + 1) (omega arith)
            (omega (arith, length-set dst pos b))))

-- Copying a match, in bulk or not, is the loop that copies byte by byte: whenever the match starts
-- at or behind the beginning of the output and ends within it.
pub xpress_copy-loop :
    (dst : Bytes) (pos offset len : ℕ)
    → offset ≤ pos
    → pos + len ≤ length dst
    → xpress_copy dst pos offset len ≡ copy_loop dst pos (pos - offset) len
unfolding xpress_copy
xpress_copy-loop dst pos offset len h k = elim (Bool-cases (leb len offset)) [
  | inl apart ↦ rw apart (bulk-copy_loop len dst pos (pos - offset) (ground arith) k)
  | inr overlap ↦ rw overlap
]

pub length-copy_loop :
    (n : ℕ) (dst : Bytes) (pos src : ℕ) → length (copy_loop dst pos src n) ≡ length dst
unfolding copy_loop
length-copy_loop zero dst pos src = refl
length-copy_loop (suc n) dst pos src =
    length-copy_loop n (set dst pos (byte_at dst src)) (pos + 1) (src + 1)
    ∙ length-set dst pos (byte_at dst src)

pub length-xpress_copy :
    (dst : Bytes) (pos offset len : ℕ) → length (xpress_copy dst pos offset len) ≡ length dst
unfolding xpress_copy
length-xpress_copy dst pos offset len = elim (Bool-cases (leb len offset)) [
  | inl apart ↦ rw apart (length-write_at dst pos (slice dst (pos - offset) len))
  | inr overlap ↦ rw overlap (length-copy_loop len dst pos (pos - offset))
]
