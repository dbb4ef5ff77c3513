-- ===== src/Wim/Dentry/Names.antt =====
-- The two names of an entry and its extra data, read from where they were written.
use gowim.Base.{
  ℕ, ◌+◌, ◌-◌, ◌%◌, ◌≡◌, refl, ◌∙◌, arith, [], ◌∷◌, ◌++◌, length, drop, replicate, append_assoc,
  length-append, length-replicate,
}
use gowim.Bytes.{Bytes, write_at, bytes8, drop-behind, take-at}
use gowim.Wim.Dentry.{name_at, behind_name, extra_at, align_up8_int}
use gowim.Wim.Dentry.Write.{name_bytes, pad_to8}

pub name_at-name_bytes :
    (p name r : Bytes) (q : ℕ)
    → drop q p ≡ name_bytes name ++ r
    → (name_at p q (length name) ≡ name) × (drop (behind_name q (length name)) p ≡ r)
unfolding name_at behind_name name_bytes
name_at-name_bytes p [] r q h = (refl, h)
name_at-name_bytes p (x ∷ xs) r q h =
    let name = x ∷ xs in
    let split = append_assoc name (0 ∷ 0 ∷ []) r in
    (
      ground (arith, take-at p name (0 ∷ 0 ∷ r) q (h ∙ split)),
      ground (
        arith,
        drop-behind p (name ++ (0 ∷ 0 ∷ [])) r q (q + length name + 2)
            (omega (arith, length-append name (0 ∷ 0 ∷ []))) h,
      ),
    )

pub behind_name-length :
    (q : ℕ) (name : Bytes) → behind_name q (length name) ≡ q + length (name_bytes name)
unfolding behind_name name_bytes
behind_name-length q [] = omega arith
behind_name-length q (x ∷ xs) = ground (arith, length-append xs (0 ∷ 0 ∷ []))

-- The zeros of `padTo8` behind `n` bytes, and that they fill up to the next multiple of 8.
abbrev pub padding : ℕ → Bytes
padding n = replicate ((8 - n % 8) % 8) 0

pub align-padding : (n : ℕ) → align_up8_int n ≡ n + length (padding n)
unfolding align_up8_int
align-padding n = omega (arith, length-replicate {A = ℕ} ((8 - n % 8) % 8) 0)

pub extra_at-behind :
    (p extra r : Bytes) (q l : ℕ)
    → l ≡ q + length extra
    → drop q p ≡ extra ++ r
    → extra_at p q l ≡ extra
unfolding extra_at
extra_at-behind p [] r q l e h = ground arith
extra_at-behind p (x ∷ xs) r q l e h =
    let size : l - q ≡ length (x ∷ xs) = omega arith in
    ground (arith, take-at p (x ∷ xs) r q h, size)

-- A padded structure with its length written over the first eight bytes, when its fixed part `f` has
-- `k` bytes.
pub length_written :
    (f m : Bytes) (k : ℕ)
    → length f ≡ k
    → write_at (pad_to8 (f ++ m)) 0 (bytes8 (length (pad_to8 (f ++ m))))
      ≡ write_at
          (f ++ (m ++ padding (k + length m)))
          0
          (bytes8 (k + length (m ++ padding (k + length m))))
unfolding pad_to8
length_written f m k e =
    let size : length (f ++ m) ≡ k + length m = omega (arith, length-append f m) in
    let tail = m ++ padding (k + length m) in
    let whole : length (f ++ tail) ≡ k + length tail = omega (arith, length-append f tail) in
    rw (size, append_assoc f m (padding (k + length m)), whole) refl
