-- ===== src/Bytes/Offsets.antt =====
-- Reading behind a prefix: a field at `length pre + k` of `pre ++ xs` is the field of `xs` at `k`.
use Prim.Native.Nat.add
use native.Mathlib.Nat.{zero-add}
use gowim.Base.{
  ℕ, zero, suc, ◌+◌, ◌≡◌, refl, ap, [], ◌∷◌, ◌++◌, length, get_or, drop, drop-append, All, ◌∙◌, ◌^◌,
  ◌<◌, take, sym, drop-drop, take-append,
}
use gowim.Bytes.Fields.{
  write_at, slice, Bytes, IsByte, u64_at, bytes8, join8-byte, u32_at, bytes4, join4-byte,
}

pub get_or-append : (pre xs : Bytes) (k : ℕ) → get_or (pre ++ xs) (length pre + k) 0 ≡ get_or xs k 0
get_or-append [] xs k = ap (λ (n : ℕ). get_or xs n 0) (zero-add k)
get_or-append (x ∷ pre) xs k =
    ap (λ (n : ℕ). get_or (x ∷ (pre ++ xs)) n 0) (add.suc (length pre) k) ∙ get_or-append pre xs k

pub get_or-append_zero : (pre xs : Bytes) → get_or (pre ++ xs) (length pre) 0 ≡ get_or xs 0 0
get_or-append_zero [] xs = refl
get_or-append_zero (x ∷ pre) xs = get_or-append_zero pre xs

-- A 64-bit field that stands behind a prefix of the offset's length.
pub u64_at-append :
    (pre rest : Bytes) (o v : ℕ)
    → o ≡ length pre
    → v < 2 ^ 64
    → u64_at (pre ++ (bytes8 v ++ rest)) o ≡ v
u64_at-append pre rest o v e h = rw e (simp (get_or-append_zero, get_or-append) (join8-byte v h))

pub u32_at-append :
    (pre rest : Bytes) (o v : ℕ)
    → o ≡ length pre
    → v < 2 ^ 32
    → u32_at (pre ++ (bytes4 v ++ rest)) o ≡ v
u32_at-append pre rest o v e h = rw e (simp (get_or-append_zero, get_or-append) (join4-byte v h))

pub drop-append_at : (pre xs : Bytes) (o : ℕ) → o ≡ length pre → drop o (pre ++ xs) ≡ xs
drop-append_at pre xs o e = rw e (drop-append pre xs)

pub All-append : (xs ys : Bytes) → All IsByte xs → All IsByte ys → All IsByte (xs ++ ys)
All-append [] ys h k = k
All-append (x ∷ xs) ys h k = (h.0, All-append xs ys h.1 k)

pub length-write_at : (xs : Bytes) (o : ℕ) (bs : Bytes) → length (write_at xs o bs) ≡ length xs
length-write_at [] o bs = refl
length-write_at (x ∷ xs) zero [] = refl
length-write_at (x ∷ xs) zero (c ∷ cs) = ap suc (length-write_at xs zero cs)
length-write_at (x ∷ xs) (suc o) bs = ap suc (length-write_at xs o bs)

-- What stands at `q + length xs`, when `xs` stands at `q`.
pub drop-behind : (p xs r : Bytes) (q n : ℕ) → n ≡ q + length xs → drop q p ≡ xs ++ r → drop n p ≡ r
drop-behind p xs r q n e h =
    rw e (sym (drop-drop (length xs) q p) ∙ ap (drop (length xs)) h ∙ drop-append xs r)

pub take-at : (p xs r : Bytes) (q : ℕ) → drop q p ≡ xs ++ r → slice p q (length xs) ≡ xs
take-at p xs r q h = ap (take (length xs)) h ∙ take-append xs r
