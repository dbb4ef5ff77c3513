-- ===== src/Xpress/Stream/Writes.antt =====
-- Bytes of a buffer after a write, after it has grown, and after it is cut.
use Prim.Native.Nat.{max}
use gowim.Base.{
  ℕ, zero, suc, ◌+◌, ◌-◌, ◌≤◌, ◌<◌, ◌^◌, ◌≡◌, refl, ◌∙◌, [], ◌∷◌, ◌++◌, length, take, replicate,
  arith, length-append, length-replicate, ◌⊎◌, inl, inr,
}
use gowim.Bytes.{Bytes, byte_at, u16_at, byte, bytes2, write_at, join2-byte, length-write_at}
use gowim.Xpress.BitWriter.{grow_to}

pub byte_at-write_at_before :
    (xs : Bytes) (o k : ℕ) (bs : Bytes) → k < o → byte_at (write_at xs o bs) k ≡ byte_at xs k
byte_at-write_at_before [] o k bs h = refl
byte_at-write_at_before (x ∷ xs) zero k bs h = absurd (omega arith)
byte_at-write_at_before (x ∷ xs) (suc o) zero bs h = refl
byte_at-write_at_before (x ∷ xs) (suc o) (suc k) bs h =
    byte_at-write_at_before xs o k bs (omega arith)

pub byte_at-write_at_behind :
    (xs : Bytes) (o k : ℕ) (bs : Bytes)
    → o + length bs ≤ k
    → byte_at (write_at xs o bs) k ≡ byte_at xs k
byte_at-write_at_behind [] o k bs h = refl
byte_at-write_at_behind (x ∷ xs) zero k [] h = refl
byte_at-write_at_behind (x ∷ xs) zero zero (c ∷ bs) h = absurd (omega arith)
byte_at-write_at_behind (x ∷ xs) zero (suc k) (c ∷ bs) h =
    byte_at-write_at_behind xs zero k bs (omega arith)
byte_at-write_at_behind (x ∷ xs) (suc o) zero bs h = absurd (omega arith)
byte_at-write_at_behind (x ∷ xs) (suc o) (suc k) bs h =
    byte_at-write_at_behind xs o k bs (omega arith)

pub byte_at-write_at_first :
    (xs : Bytes) (o b : ℕ) (bs : Bytes) → o < length xs → byte_at (write_at xs o (b ∷ bs)) o ≡ b
byte_at-write_at_first [] o b bs h = absurd (omega arith)
byte_at-write_at_first (x ∷ xs) zero b bs h = refl
byte_at-write_at_first (x ∷ xs) (suc o) b bs h = byte_at-write_at_first xs o b bs (omega arith)

byte_at-write_at_second :
    (xs : Bytes) (o a b : ℕ) → o + 1 < length xs → byte_at (write_at xs o (a ∷ b ∷ [])) (suc o) ≡ b
byte_at-write_at_second [] o a b h = absurd (omega arith)
byte_at-write_at_second (x ∷ []) zero a b h = absurd (omega arith)
byte_at-write_at_second (x ∷ y ∷ xs) zero a b h = refl
byte_at-write_at_second (x ∷ xs) (suc o) a b h = byte_at-write_at_second xs o a b (omega arith)

pub u16_at-write_at :
    (xs : Bytes) (o v : ℕ)
    → o + 2 ≤ length xs
    → v < 2 ^ 16
    → u16_at (write_at xs o (bytes2 v)) o ≡ v
u16_at-write_at xs o v h k =
    let e : o + 1 ≡ suc o = omega arith in
    rw
      (
        e,
        byte_at-write_at_first xs o (byte v 0) (byte v 1 ∷ []) (omega arith),
        byte_at-write_at_second xs o (byte v 0) (byte v 1) (omega arith),
      )
      (join2-byte v k)

byte_at-append_zeros : (xs : Bytes) (n k : ℕ) → byte_at (xs ++ replicate n 0) k ≡ byte_at xs k
byte_at-append_zeros [] zero k = refl
byte_at-append_zeros [] (suc n) zero = refl
byte_at-append_zeros [] (suc n) (suc k) = byte_at-append_zeros [] n k
byte_at-append_zeros (x ∷ xs) n zero = refl
byte_at-append_zeros (x ∷ xs) n (suc k) = byte_at-append_zeros xs n k

pub byte_at-grow_to : (xs : Bytes) (n k : ℕ) → byte_at (grow_to xs n) k ≡ byte_at xs k
unfolding grow_to
byte_at-grow_to xs n k = byte_at-append_zeros xs (n - length xs) k

pub length-grow_to : (xs : Bytes) (n : ℕ) → length (grow_to xs n) ≡ max (length xs) n
unfolding grow_to
length-grow_to xs n = omega (
  arith,
  length-append xs (replicate (n - length xs) 0),
  length-replicate {A = ℕ} (n - length xs) 0,
)

pub byte_at-take : (n : ℕ) (xs : Bytes) (k : ℕ) → k < n → byte_at (take n xs) k ≡ byte_at xs k
byte_at-take zero xs k h = absurd (omega arith)
byte_at-take (suc n) [] k h = refl
byte_at-take (suc n) (x ∷ xs) zero h = refl
byte_at-take (suc n) (x ∷ xs) (suc k) h = byte_at-take n xs k (omega arith)

-- Where two bytes agree, so do the fields that they make.
pub u16_at-same :
    (xs ys : Bytes) (o : ℕ)
    → byte_at xs o ≡ byte_at ys o
    → byte_at xs (o + 1) ≡ byte_at ys (o + 1)
    → u16_at xs o ≡ u16_at ys o
u16_at-same xs ys o e f = rw (e, f) refl

-- A write into a buffer that is grown first.
module _ (out : Bytes) (n pos : ℕ) where
  pub length-placed : (bs : Bytes) → length (write_at (grow_to out n) pos bs) ≡ max (length out) n
  length-placed bs = length-write_at (grow_to out n) pos bs ∙ length-grow_to out n

  pub placed_other :
      (bs : Bytes) (k : ℕ)
      → (k < pos) ⊎ (pos + length bs ≤ k)
      → byte_at (write_at (grow_to out n) pos bs) k ≡ byte_at out k
  placed_other bs k (inl before) =
      byte_at-write_at_before (grow_to out n) pos k bs before ∙ byte_at-grow_to out n k
  placed_other bs k (inr behind) =
      byte_at-write_at_behind (grow_to out n) pos k bs behind ∙ byte_at-grow_to out n k

  pub placed_u16 :
      (v : ℕ) → pos + 2 ≤ n → v < 2 ^ 16 → u16_at (write_at (grow_to out n) pos (bytes2 v)) pos ≡ v
  placed_u16 v h k = u16_at-write_at (grow_to out n) pos v (omega (arith, length-grow_to out n)) k

  pub placed_byte : (b : ℕ) → pos < n → byte_at (write_at (grow_to out n) pos (b ∷ [])) pos ≡ b
  placed_byte b h =
      byte_at-write_at_first (grow_to out n) pos b [] (omega (arith, length-grow_to out n))

pub u16_at-grow_to : (xs : Bytes) (n k : ℕ) → u16_at (grow_to xs n) k ≡ u16_at xs k
u16_at-grow_to xs n k =
    u16_at-same (grow_to xs n) xs k (byte_at-grow_to xs n k) (byte_at-grow_to xs n (k + 1))
