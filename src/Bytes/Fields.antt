-- ===== src/Bytes/Fields.antt =====
-- Reads and writes of 16, 32 and 64-bit fields, and that a read gives back what a write stored.
use gowim.Base.{
  ℕ, zero, suc, ◌+◌, ◌*◌, ◌/◌, ◌%◌, ◌^◌, ◌<◌, ◌≡◌, ◌≢◌, ◌⊎◌, arith, List, [], ◌∷◌, get_or, take,
  drop, All,
}

abbrev pub Bytes : Type 0
Bytes = List ℕ

abbrev pub IsByte : ℕ → Type 0
IsByte x = x < 256

-- Byte `k` of `v`, the lowest first: `byte(v >> 8k)`.
unfoldable pub byte : ℕ → ℕ → ℕ
byte v zero = v % 256
byte v (suc k) = byte (v / 256) k

-- The number whose bytes these are: `|` of the shifted bytes, which do not overlap.
unfoldable pub join2 : ℕ → ℕ → ℕ
join2 a b = a + 256 * b

unfoldable pub join4 : ℕ → ℕ → ℕ → ℕ → ℕ
join4 a b c d = a + 256 * (b + 256 * (c + 256 * d))

unfoldable pub join7 : ℕ → ℕ → ℕ → ℕ → ℕ → ℕ → ℕ → ℕ
unfolding join4
join7 a b c d e f g = a + 256 * (b + 256 * (c + 256 * join4 d e f g))

unfoldable pub join8 : ℕ → ℕ → ℕ → ℕ → ℕ → ℕ → ℕ → ℕ → ℕ
unfolding join7
join8 a b c d e f g h = a + 256 * join7 b c d e f g h

abbrev pub bytes2 : ℕ → Bytes
bytes2 v = byte v 0 ∷ byte v 1 ∷ []

abbrev pub bytes4 : ℕ → Bytes
bytes4 v = byte v 0 ∷ byte v 1 ∷ byte v 2 ∷ byte v 3 ∷ []

abbrev pub bytes8 : ℕ → Bytes
bytes8 v =
    byte v 0 ∷ byte v 1 ∷ byte v 2 ∷ byte v 3 ∷ byte v 4 ∷ byte v 5 ∷ byte v 6 ∷ byte v 7 ∷ []

-- `b[i]`, read only behind a length check.
abbrev pub byte_at : Bytes → ℕ → ℕ
byte_at b i = get_or b i 0

abbrev pub u16_at : Bytes → ℕ → ℕ
u16_at b o = join2 (byte_at b o) (byte_at b (o + 1))

abbrev pub u32_at : Bytes → ℕ → ℕ
u32_at b o = join4 (byte_at b o) (byte_at b (o + 1)) (byte_at b (o + 2)) (byte_at b (o + 3))

abbrev pub u64_at : Bytes → ℕ → ℕ
u64_at b o =
    join8 (byte_at b o) (byte_at b (o + 1)) (byte_at b (o + 2)) (byte_at b (o + 3))
      (byte_at b (o + 4)) (byte_at b (o + 5)) (byte_at b (o + 6)) (byte_at b (o + 7))

-- `b[lo:hi]`, within the bounds.
abbrev pub slice : Bytes → ℕ → ℕ → Bytes
slice b lo n = take n (drop lo b)

-- `copy(b[o:], bs)`: as much as fits.
abbrev pub write_at : Bytes → ℕ → Bytes → Bytes
write_at [] o bs = []
write_at (x ∷ xs) zero [] = x ∷ xs
write_at (x ∷ xs) zero (c ∷ cs) = c ∷ write_at xs zero cs
write_at (x ∷ xs) (suc o) bs = x ∷ write_at xs o bs

pub join2-byte : (v : ℕ) → v < 2 ^ 16 → join2 (byte v 0) (byte v 1) ≡ v
unfolding join2 byte
join2-byte v h = omega arith

pub byte-nonzero : (v : ℕ) → v < 2 ^ 16 → v ≢ 0 → (byte v 0 ≢ 0) ⊎ (byte v 1 ≢ 0)
unfolding byte
byte-nonzero v h k = omega arith

pub join4-byte : (v : ℕ) → v < 2 ^ 32 → join4 (byte v 0) (byte v 1) (byte v 2) (byte v 3) ≡ v
unfolding join4 byte
join4-byte v h = omega arith

pub join7-byte :
    (v : ℕ)
    → v < 2 ^ 56
    → join7 (byte v 0) (byte v 1) (byte v 2) (byte v 3) (byte v 4) (byte v 5) (byte v 6) ≡ v
unfolding join7 byte
join7-byte v h = omega arith

pub join8-byte :
    (v : ℕ)
    → v < 2 ^ 64
    → join8 (byte v 0) (byte v 1) (byte v 2) (byte v 3) (byte v 4) (byte v 5) (byte v 6) (byte v 7)
      ≡ v
unfolding join8 byte
join8-byte v h = omega arith

pub byte-IsByte : (v k : ℕ) → IsByte (byte v k)
unfolding byte
byte-IsByte v zero = omega arith
byte-IsByte v (suc k) = byte-IsByte (v / 256) k

-- A field read from bytes is in the range of its type.
pub join2-lt : (a b : ℕ) → IsByte a → IsByte b → join2 a b < 2 ^ 16
unfolding join2
join2-lt a b ha hb = omega arith

pub join4-lt : (a b c d : ℕ) → IsByte a → IsByte b → IsByte c → IsByte d → join4 a b c d < 2 ^ 32
unfolding join4
join4-lt a b c d ha hb hc hd = omega arith

module _ (a b c d e f g : ℕ) where
  pub join7-lt :
      IsByte a
      → IsByte b
      → IsByte c
      → IsByte d
      → IsByte e
      → IsByte f
      → IsByte g
      → join7 a b c d e f g < 2 ^ 56
  unfolding join7
  join7-lt ha hb hc hd he hf hg = omega arith

  pub join8-lt :
      (h : ℕ)
      → IsByte a
      → IsByte b
      → IsByte c
      → IsByte d
      → IsByte e
      → IsByte f
      → IsByte g
      → IsByte h
      → join8 a b c d e f g h < 2 ^ 64
  unfolding join8
  join8-lt h ha hb hc hd he hf hg hh = omega arith

-- Every byte of the buffer is one; reading past the end gives 0, which is one too.
pub byte_at-IsByte : (b : Bytes) (i : ℕ) → All IsByte b → IsByte (byte_at b i)
byte_at-IsByte [] i h = omega arith
byte_at-IsByte (x ∷ xs) zero h = h.0
byte_at-IsByte (x ∷ xs) (suc i) h = byte_at-IsByte xs i h.1

module _ (b : Bytes) (o : ℕ) (h : All IsByte b) where
  at : (k : ℕ) → IsByte (byte_at b k)
  at k = byte_at-IsByte b k h

  pub u16_at-lt : u16_at b o < 2 ^ 16
  u16_at-lt = join2-lt _ _ (at o) (at (o + 1))

  pub u32_at-lt : u32_at b o < 2 ^ 32
  u32_at-lt = join4-lt _ _ _ _ (at o) (at (o + 1)) (at (o + 2)) (at (o + 3))

  pub u64_at-lt : u64_at b o < 2 ^ 64
  u64_at-lt =
      join8-lt _ _ _ _ _ _ _ _ (at o) (at (o + 1)) (at (o + 2)) (at (o + 3)) (at (o + 4))
        (at (o + 5)) (at (o + 6)) (at (o + 7))

pub All-drop : (n : ℕ) (b : Bytes) → All IsByte b → All IsByte (drop n b)
All-drop zero b h = h
All-drop (suc n) [] h = tt
All-drop (suc n) (x ∷ xs) h = All-drop n xs h.1

-- Taking a field apart gives the bytes it was read from.
pub byte-join2 : (a b : ℕ) → IsByte a → IsByte b → bytes2 (join2 a b) ≡ a ∷ b ∷ []
unfolding join2 byte
byte-join2 a b ha hb = ground arith

pub byte-join4 :
    (a b c d : ℕ)
    → IsByte a
    → IsByte b
    → IsByte c
    → IsByte d
    → bytes4 (join4 a b c d) ≡ a ∷ b ∷ c ∷ d ∷ []
unfolding join4 byte
byte-join4 a b c d ha hb hc hd = ground arith

module _ (a b c d e f g : ℕ) where
  pub byte-join8 :
      (h : ℕ)
      → IsByte a
      → IsByte b
      → IsByte c
      → IsByte d
      → IsByte e
      → IsByte f
      → IsByte g
      → IsByte h
      → bytes8 (join8 a b c d e f g h) ≡ a ∷ b ∷ c ∷ d ∷ e ∷ f ∷ g ∷ h ∷ []
  unfolding join8 byte
  byte-join8 h ha hb hc hd he hf hg hh = ground arith
