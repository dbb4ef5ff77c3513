-- ===== src/Xpress/Items/Agree.antt =====
-- An output that agrees with the data up to a position, and how an item extends it.
use gowim.Base.{
  ℕ, zero, suc, ◌+◌, ◌-◌, ◌≤◌, ◌<◌, ◌≡◌, refl, ap, ◌∙◌, [], ◌∷◌, length, set, ltb, ◌==◌, ◌||◌,
  arith, false, inl, inr, ok, ◌⊎◌,
}
use gowim.Bytes.{Bytes, byte_at}
use gowim.Xpress.Copy.{copy_loop}
use gowim.Xpress.Copy.Bulk.{byte_at-set_self, byte_at-set_before, length-set, xpress_copy-loop}
use gowim.Xpress.Items.{apply_item}
use gowim.Xpress.Lz77.{literal, copy_of}
use gowim.Xpress.Lz77.Finder.{SameBytes}

-- The output has the length of the data, and its bytes in front of the position.
pub record Agrees (dst b : Bytes) (pos : ℕ) : Type 0 where
  pub same_length : length dst ≡ length b
  pub bytes : (k : ℕ) → k < pos → byte_at dst k ≡ byte_at b k

last_or_before : (k pos : ℕ) → k < pos + 1 → (k < pos) ⊎ (k ≡ pos)
last_or_before k pos h = ground arith

pub Agrees-set :
    (dst b : Bytes) (pos v : ℕ)
    → pos < length b
    → v ≡ byte_at b pos
    → Agrees dst b pos
    → Agrees (set dst pos v) b (pos + 1)
Agrees-set dst b pos v inside e g = record {
  same_length = length-set dst pos v ∙ g.same_length;
  bytes = λ k h. elim (last_or_before k pos h) [
    | inl before ↦ byte_at-set_before dst pos k v before ∙ g.bytes k before
    | inr last ↦ rw last (byte_at-set_self dst pos v (omega (arith, g.same_length)) ∙ e)
  ];
}

SameBytes-zero :
    (b : Bytes) (src dst n : ℕ) → SameBytes b src dst (suc n) → byte_at b src ≡ byte_at b dst
SameBytes-zero b src dst n same =
    ap (byte_at b) (omega arith) ∙ same 0 (omega arith) ∙ ap (byte_at b) (omega arith)

SameBytes-next :
    (b : Bytes) (src dst n : ℕ) → SameBytes b src dst (suc n) → SameBytes b (src + 1) (dst + 1) n
SameBytes-next b src dst n same =
    λ k h. ap (byte_at b) (omega arith) ∙ same (suc k) (omega arith) ∙ ap (byte_at b) (omega arith)

-- Where the data repeats itself, copying the output agrees with the data.
pub Agrees-copy_loop :
    (n : ℕ) (dst b : Bytes) (pos src : ℕ)
    → src < pos
    → pos + n ≤ length b
    → SameBytes b src pos n
    → Agrees dst b pos
    → Agrees (copy_loop dst pos src n) b (pos + n)
unfolding copy_loop
Agrees-copy_loop zero dst b pos src behind inside same g =
    let e : pos ≡ pos + 0 = omega arith in rw (← e) g
Agrees-copy_loop (suc n) dst b pos src behind inside same g =
    let e : pos + 1 + n ≡ pos + suc n = omega arith in
    rw (← e) (
      Agrees-copy_loop n (set dst pos (byte_at dst src)) b (pos + 1) (src + 1) (omega arith)
        (omega arith) (SameBytes-next b src pos n same)
        (Agrees-set dst b pos (byte_at dst src) (omega arith)
          (g.bytes src behind ∙ SameBytes-zero b src pos n same) g))

pub apply_item-literal :
    (dst b : Bytes) (pos : ℕ)
    → pos < length b
    → Agrees dst b pos
    → (dst' : Bytes) × (apply_item dst pos (literal (byte_at b pos)) ≡ ok dst')
      × Agrees dst' b (pos + 1)
unfolding apply_item
apply_item-literal dst b pos inside g =
    (set dst pos (byte_at b pos), refl, Agrees-set dst b pos (byte_at b pos) inside refl g)

in_range_offset : (off pos : ℕ) → 1 ≤ off → off ≤ pos → (off == 0 || ltb pos off) ≡ false
in_range_offset off pos h k = ground arith

fits : (n pos len : ℕ) → pos + len ≤ n → ltb (n - pos) len ≡ false
fits n pos len h = ground arith

pub apply_item-copy_of :
    (dst b : Bytes) (pos len off : ℕ)
    → 1 ≤ off
    → off ≤ pos
    → pos + len ≤ length b
    → SameBytes b (pos - off) pos len
    → Agrees dst b pos
    → (dst' : Bytes) × (apply_item dst pos (copy_of len off) ≡ ok dst') × Agrees dst' b (pos + len)
unfolding apply_item
apply_item-copy_of dst b pos len off some_off behind inside same g =
    let room : pos + len ≤ length dst = omega (arith, g.same_length) in
    (
      copy_loop dst pos (pos - off) len,
      rw (in_range_offset off pos some_off behind, fits (length dst) pos len room)
          (ap ok (xpress_copy-loop dst pos off len behind room)),
      Agrees-copy_loop len dst b pos (pos - off) (omega arith) inside same g,
    )

pub at_same :
    (xs ys : Bytes)
    → length xs ≡ length ys
    → ((k : ℕ) → k < length ys → byte_at xs k ≡ byte_at ys k)
    → xs ≡ ys
at_same [] [] e h = refl
at_same [] (y ∷ ys) e h = absurd (omega arith)
at_same (x ∷ xs) [] e h = absurd (omega arith)
at_same (x ∷ xs) (y ∷ ys) e h =
    let first : x ≡ y = h zero (omega arith) in
    let more : xs ≡ ys = at_same xs ys (omega arith) (λ k l. h (suc k) (omega arith)) in
    rw (first, more) refl

-- At the end of the data the output is the data.
pub Agrees-eq : (dst b : Bytes) (pos : ℕ) → length b ≤ pos → Agrees dst b pos → dst ≡ b
Agrees-eq dst b pos h g = at_same dst b g.same_length (λ k l. g.bytes k (omega arith))
