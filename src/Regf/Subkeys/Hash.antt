-- ===== src/Regf/Subkeys/Hash.antt =====
-- The hash of a name as a number in base 37.
use gowim.Base.{
  ℕ, suc, ◌+◌, ◌*◌, ◌%◌, ◌^◌, ◌≡◌, ap, ◌∙◌, arith, Bool, true, false, List, [], ◌∷◌, length,
}
use native.Mathlib.Numerals.{unary_clauses}
use gowim.Bytes.{Bytes}
use gowim.Text.{utf16le_to_string}
use gowim.Regf.Subkeys.{hash_from, lh_hash}

-- The characters of a name that `lhHash` goes over.
abbrev pub characters : Bytes → Bool → List ℕ
characters raw true = raw
characters raw false = utf16le_to_string raw

-- The upper-case characters as the digits of a number in base 37, the first one the highest.
unfoldable pub polynomial : (ℕ → ℕ) → List ℕ → ℕ
polynomial upper [] = 0
polynomial upper (c ∷ cs) = upper c * 37 ^ length cs + polynomial upper cs

horner_step :
    (hash u power power' p : ℕ)
    → power' ≡ power * 37
    → (hash * 37 + u) * power + p ≡ hash * power' + (u * power + p)
horner_step hash u power power' p e = rw e (grind arith)

hash_from-polynomial :
    (upper : ℕ → ℕ) (cs : List ℕ) (hash : ℕ)
    → hash_from upper (hash % 2 ^ 32) cs ≡ (hash * 37 ^ length cs + polynomial upper cs) % 2 ^ 32
unfolding hash_from polynomial
hash_from-polynomial upper [] hash = omega arith
hash_from-polynomial upper (c ∷ cs) hash =
    let u = upper c in
    let step : (hash % 2 ^ 32 * 37 % 2 ^ 32 + u % 2 ^ 32) % 2 ^ 32 ≡ (hash * 37 + u) % 2 ^ 32 =
      omega arith in
    let power : 37 ^ suc (length cs) ≡ 37 ^ length cs * 37 = simp unary_clauses in
    let spread =
      horner_step hash u (37 ^ length cs) (37 ^ suc (length cs)) (polynomial upper cs) power in
    rw step (hash_from-polynomial upper cs (hash * 37 + u) ∙ ap (λ (m : ℕ). m % 2 ^ 32) spread)

-- The wrap-around of each step comes to that of the whole number.
pub lh_hash-polynomial :
    (upper : ℕ → ℕ) (raw : Bytes) (ascii : Bool)
    → lh_hash upper raw ascii ≡ polynomial upper (characters raw ascii) % 2 ^ 32
unfolding lh_hash
lh_hash-polynomial upper raw true = hash_from-polynomial upper raw 0 ∙ omega arith
lh_hash-polynomial upper raw false =
    hash_from-polynomial upper (utf16le_to_string raw) 0 ∙ omega arith
