-- ===== src/Regf/BaseBlock/Checksum.antt =====
-- The checksum of a base block.
use gowim.Base.{
  ℕ, zero, suc, ◌+◌, ◌*◌, ◌^◌, ◌<◌, ◌≤◌, ◌≡◌, refl, arith, [], ◌∷◌, ◌++◌, length, get_or,
}
use gowim.Bytes.{Bytes, u32_at}
use gowim.Regf.BaseBlock.{xor_dwords}

-- The checksum reads only the bytes that it covers.
get_or-append_left : (xs r : Bytes) (k : ℕ) → k < length xs → get_or (xs ++ r) k 0 ≡ get_or xs k 0
get_or-append_left [] r k h = absurd (omega arith)
get_or-append_left (x ∷ xs) r zero h = refl
get_or-append_left (x ∷ xs) r (suc k) h = get_or-append_left xs r k (omega arith)

pub xor_dwords-append :
    (n i sum : ℕ) (xs r : Bytes)
    → (i + n) * 4 ≤ length xs
    → xor_dwords n i sum (xs ++ r) ≡ xor_dwords n i sum xs
unfolding xor_dwords
xor_dwords-append zero i sum xs r h = refl
xor_dwords-append (suc n) i sum xs r h =
    let dword : u32_at (xs ++ r) (i * 4) ≡ u32_at xs (i * 4) =
      rw
        (
          get_or-append_left xs r (i * 4) (omega arith),
          get_or-append_left xs r (i * 4 + 1) (omega arith),
          get_or-append_left xs r (i * 4 + 2) (omega arith),
          get_or-append_left xs r (i * 4 + 3) (omega arith),
        )
        refl in
    rw dword (xor_dwords-append n (i + 1) _ xs r (omega arith))

pub xor_dwords-lt : (n i sum : ℕ) (xs : Bytes) → sum < 2 ^ 32 → xor_dwords n i sum xs < 2 ^ 32
unfolding xor_dwords
xor_dwords-lt zero i sum xs h = h
xor_dwords-lt (suc n) i sum xs h = xor_dwords-lt n (i + 1) _ xs (omega arith)
