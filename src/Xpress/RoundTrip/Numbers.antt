-- ===== src/Xpress/RoundTrip/Numbers.antt =====
-- The numbers of a match: the logarithm of its offset, its symbol and its length's nibble.
use native.Mathlib.Numerals.{unary_clauses}
use gowim.Base.{
  ℕ, zero, suc, ◌+◌, ◌-◌, ◌*◌, ◌/◌, ◌%◌, ◌^◌, ◌≤◌, ◌<◌, ◌≡◌, ap, ◌∙◌, ltb, arith, Bool-cases, inl,
  inr,
}
use native.Mathlib.Decide.{dec_lt}
use gowim.Xpress.BitList.{pow_add, pow_pos}
use gowim.Xpress.Encode.{halvings, log2, length_header}

doubled : (l x : ℕ) → 2 ^ l ≤ x / 2 → x / 2 < 2 ^ suc l → (2 ^ suc l ≤ x) × (x < 2 ^ suc (suc l))
doubled l x h k =
    simp unary_clauses (let k' = simp unary_clauses at k in (omega arith, omega arith))

halvings_bounds :
    (fuel x : ℕ)
    → 1 ≤ x
    → x < 2 ^ suc fuel
    → (2 ^ halvings fuel x ≤ x) × (x < 2 ^ suc (halvings fuel x))
unfolding halvings
halvings_bounds zero x some few = (omega arith, few)
halvings_bounds (suc fuel) x some few = elim (Bool-cases (ltb x 2)) [
  | inl one ↦ rw one (some, ground arith)
  | inr more ↦
      let (low, high) =
        halvings_bounds fuel (x / 2) (ground arith)
          (simp unary_clauses (omega (arith, simp unary_clauses at few))) in
      rw more (doubled (halvings fuel (x / 2)) x low high)
]

small_log : (l x : ℕ) → 2 ^ l ≤ x → x < 65536 → l ≤ 15
small_log l x h k = elim (dec_lt 15 l) [
  | yes above ↦ absurd (omega (arith, big l above, pow_pos (l - 16)))
  | no below ↦ omega arith
]
  where
    big : (m : ℕ) → 16 ≤ m → 2 ^ m ≡ 65536 * 2 ^ (m - 16)
    big m some =
        ap (λ (n : ℕ). 2 ^ n) (let e : m ≡ 16 + (m - 16) = omega arith in e) ∙ pow_add 16 (m - 16)

remainder : (l x : ℕ) → 2 ^ l ≤ x → x < 2 ^ suc l → x - 2 ^ l < 2 ^ l
remainder l x h k = let k' = simp unary_clauses at k in omega arith

abbrev IsLog : ℕ → ℕ → Type 0
IsLog l x = (2 ^ l ≤ x) × (x - 2 ^ l < 2 ^ l) × (l ≤ 15)

is_log : (l x : ℕ) → (2 ^ l ≤ x) × (x < 2 ^ suc l) → x < 65536 → IsLog l x
is_log l x (low, high) few = (low, remainder l x low high, small_log l x low few)

log2_halvings : (fuel x : ℕ) → 1 ≤ x → x < 2 ^ suc fuel → x < 65536 → IsLog (halvings fuel x) x
log2_halvings fuel x some h few = is_log (halvings fuel x) x (halvings_bounds fuel x some h) few

pub log2_bounds :
    (x : ℕ) → 1 ≤ x → x < 65536 → (2 ^ log2 x ≤ x) × (x - 2 ^ log2 x < 2 ^ log2 x) × (log2 x ≤ 15)
unfolding log2
log2_bounds x some few = log2_halvings 31 x some (omega arith) few

pub length_header-le : (n : ℕ) → length_header n ≤ 15
unfolding length_header
length_header-le n = ground arith

-- The fields of a match's symbol.
pub symbol_fields :
    (l hdr : ℕ)
    → l ≤ 15
    → hdr ≤ 15
    → ((256 + (l * 16 + hdr)) / 16 % 16 ≡ l) × ((256 + (l * 16 + hdr)) % 16 ≡ hdr)
symbol_fields l hdr h k = omega arith
