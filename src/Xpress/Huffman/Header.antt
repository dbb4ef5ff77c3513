-- ===== src/Xpress/Huffman/Header.antt =====
-- The header of codeword lengths: packed and unpacked.
use gowim.Base.{
  ℕ, zero, suc, ◌+◌, ◌*◌, ◌/◌, ◌%◌, ◌≤◌, ◌≡◌, refl, ap, ◌∙◌, List, [], ◌∷◌, length, take, arith,
  All,
}
use gowim.Bytes.{Bytes}
use gowim.Xpress.Huffman.{pack_huffman_lengths, unpack_nibbles, unpack_huffman_lengths}
use gowim.Xpress.Huffman.Table.{IsLength}

nibbles :
    (a b : ℕ)
    → a ≤ 15
    → b ≤ 15
    → (((b * 16) % 256 + a % 16) % 16 ≡ a) × (((b * 16) % 256 + a % 16) / 16 ≡ b)
nibbles a b h k = omega arith

unpack-pack :
    (n : ℕ) (lens : List ℕ)
    → length lens ≡ 2 * n
    → All IsLength lens
    → unpack_nibbles (pack_huffman_lengths lens) ≡ lens
unfolding unpack_nibbles pack_huffman_lengths
unpack-pack n [] e h = refl
unpack-pack n (a ∷ []) e h = absurd (omega arith)
unpack-pack zero (a ∷ b ∷ lens) e h = absurd (omega arith)
unpack-pack (suc n) (a ∷ b ∷ lens) e (ha, (hb, hs)) =
    let (low, high) = nibbles a b ha hb in
    rw (low, high) (ap (λ (l : List ℕ). a ∷ b ∷ l) (unpack-pack n lens (omega arith) hs))

length-pack : (n : ℕ) (lens : List ℕ) → length lens ≡ 2 * n → length (pack_huffman_lengths lens) ≡ n
unfolding pack_huffman_lengths
length-pack zero [] e = refl
length-pack (suc n) [] e = absurd (omega arith)
length-pack n (a ∷ []) e = absurd (omega arith)
length-pack zero (a ∷ b ∷ lens) e = absurd (omega arith)
length-pack (suc n) (a ∷ b ∷ lens) e = ap suc (length-pack n lens (omega arith))

pub length-pack_huffman_lengths :
    (lens : List ℕ) → length lens ≡ 512 → length (pack_huffman_lengths lens) ≡ 256
length-pack_huffman_lengths lens e = length-pack 256 lens e

take_all : (n : ℕ) (xs : Bytes) → length xs ≡ n → take n xs ≡ xs
take_all zero [] e = refl
take_all zero (x ∷ xs) e = absurd (omega arith)
take_all (suc n) [] e = refl
take_all (suc n) (x ∷ xs) e = ap (◌∷◌ x) (take_all n xs (omega arith))

-- The 512 lengths of a code, each at most 15, come back from the header that holds them.
pub unpack-pack_huffman_lengths :
    (lens : List ℕ)
    → length lens ≡ 512
    → All IsLength lens
    → unpack_huffman_lengths (pack_huffman_lengths lens) ≡ lens
unfolding unpack_huffman_lengths
unpack-pack_huffman_lengths lens e h =
    ap unpack_nibbles
      (take_all 256 (pack_huffman_lengths lens) (length-pack_huffman_lengths lens e))
    ∙ unpack-pack 256 lens e h
