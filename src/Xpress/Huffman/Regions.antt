-- ===== src/Xpress/Huffman/Regions.antt =====
-- The part of the decoder's table that each codeword length takes, and how the assignment of
-- codewords uses it up from below.
use native.Mathlib.Numerals.{unary_clauses}
use gowim.Base.{
  ℕ, suc, ◌+◌, ◌-◌, ◌*◌, ◌^◌, ◌≤◌, ◌<◌, ◌≡◌, ◌⊎◌, inl, inr, refl, ap, sym, ◌∙◌, List, [], ◌∷◌, ◌==◌,
  if◌then◌else◌, arith,
}
use gowim.Xpress.BitList.{pow_pos}
use gowim.Xpress.Huffman.{bump}

-- How many table entries a codeword of a length fills.
pub share : ℕ → ℕ
share l = 2 ^ (15 - l)

pub share_lem : (l : ℕ) → share l ≡ 2 ^ (15 - l)
unfolding share
share_lem l = refl

pub share-suc : (b : ℕ) → b < 15 → share b ≡ 2 * share (suc b)
unfolding share
share-suc b h =
    let e : 15 - b ≡ suc (15 - suc b) = omega arith in rw e (simp unary_clauses (omega arith))

pub share_pos : (l : ℕ) → 0 < share l
unfolding share
share_pos l = pow_pos (15 - l)

unfoldable pub count_of : ℕ → List ℕ → ℕ
count_of k [] = 0
count_of k (l ∷ lens) = let rest = count_of k lens in if l == k then suc rest else rest

-- From the next codeword of a length to behind its last one.
pub low_end : (ℕ → ℕ) → ℕ → ℕ
low_end next k = next k * share k

pub high_end : (ℕ → ℕ) → List ℕ → ℕ → ℕ
high_end next lens k = (next k + count_of k lens) * share k

pub low_end_lem : (next : ℕ → ℕ) (k : ℕ) → low_end next k ≡ next k * share k
unfolding low_end
low_end_lem next k = refl

pub high_end_lem :
    (next : ℕ → ℕ) (lens : List ℕ) (k : ℕ)
    → high_end next lens k ≡ (next k + count_of k lens) * share k
unfolding high_end
high_end_lem next lens k = refl

pub low-le-high : (next : ℕ → ℕ) (lens : List ℕ) (k : ℕ) → low_end next k ≤ high_end next lens k
unfolding low_end high_end
low-le-high next lens k = grind arith

pub bump_sum :
    (next : ℕ → ℕ) (l k : ℕ) (lens : List ℕ)
    → bump next l k + count_of k lens ≡ next k + count_of k (l ∷ lens)
unfolding bump count_of
bump_sum next l k lens = ground arith

pub high_end-bump :
    (next : ℕ → ℕ) (l : ℕ) (lens : List ℕ) (k : ℕ)
    → high_end (bump next l) lens k ≡ high_end next (l ∷ lens) k
unfolding high_end
high_end-bump next l lens k = ap (λ (x : ℕ). x * share k) (bump_sum next l k lens)

pub count_of-unused :
    (l k : ℕ) (lens : List ℕ) → l ≡ 0 → 1 ≤ k → count_of k (l ∷ lens) ≡ count_of k lens
unfolding count_of
count_of-unused l k lens e h = ground arith

pub high_end-unused :
    (next : ℕ → ℕ) (l : ℕ) (lens : List ℕ) (k : ℕ)
    → l ≡ 0
    → 1 ≤ k
    → high_end next lens k ≡ high_end next (l ∷ lens) k
unfolding high_end
high_end-unused next l lens k e h =
    ap (λ (x : ℕ). (next k + x) * share k) (sym (count_of-unused l k lens e h))

bump_self : (next : ℕ → ℕ) (l : ℕ) → bump next l l ≡ next l + 1
unfolding bump
bump_self next l = ground arith

bump-ge : (next : ℕ → ℕ) (l k : ℕ) → next k ≤ bump next l k
unfolding bump
bump-ge next l k = ground arith

product_mono : (a b u : ℕ) → a ≤ b → a * u ≤ b * u
product_mono a b u h = grind arith

pub low_end-bump_ge : (next : ℕ → ℕ) (l k : ℕ) → low_end next k ≤ low_end (bump next l) k
unfolding low_end
low_end-bump_ge next l k = product_mono (next k) (bump next l k) (share k) (bump-ge next l k)

pub suc_product : (a u : ℕ) → (a + 1) * u ≡ a * u + u
suc_product a u = grind arith

pub low_end-bump_self : (next : ℕ → ℕ) (l : ℕ) → low_end (bump next l) l ≡ low_end next l + share l
unfolding low_end
low_end-bump_self next l =
    ap (λ (x : ℕ). x * share l) (bump_self next l) ∙ suc_product (next l) (share l)

-- The shares of the lengths follow one another, and end within the table.
pub record Regions (next : ℕ → ℕ) (lens : List ℕ) : Type 0 where
  pub apart : (a b : ℕ) → 1 ≤ a → a < b → b ≤ 15 → high_end next lens a ≤ low_end next b
  pub top : (a : ℕ) → 1 ≤ a → a ≤ 15 → high_end next lens a ≤ 32768

-- An entry that no further codeword fills.
abbrev pub IsOutside : ℕ → (ℕ → ℕ) → List ℕ → Type 0
IsOutside p next lens = (k : ℕ) → 1 ≤ k → k ≤ 15 → (p < low_end next k) ⊎ (high_end next lens k ≤ p)

pub Regions-unused :
    (next : ℕ → ℕ) (l : ℕ) (lens : List ℕ) → l ≡ 0 → Regions next (l ∷ lens) → Regions next lens
Regions-unused next l lens e r = record {
  apart = λ a b h k m. omega (arith, high_end-unused next l lens a e h, r.apart a b h k m);
  top = λ a h k. omega (arith, high_end-unused next l lens a e h, r.top a h k);
}

pub IsOutside-unused :
    (p : ℕ) (next : ℕ → ℕ) (l : ℕ) (lens : List ℕ)
    → l ≡ 0
    → IsOutside p next (l ∷ lens)
    → IsOutside p next lens
IsOutside-unused p next l lens e out k h m =
    ground (arith, out k h m, high_end-unused next l lens k e h)

module _ (next : ℕ → ℕ) (l : ℕ) (lens : List ℕ) where
  pub Regions-bump : Regions next (l ∷ lens) → Regions (bump next l) lens
  Regions-bump r = record {
    apart = λ a b h k m.
        omega (arith, high_end-bump next l lens a, r.apart a b h k m, low_end-bump_ge next l b);
    top = λ a h k. omega (arith, high_end-bump next l lens a, r.top a h k);
  }

  -- The codeword's own entries lie within the share of its length.
  pub next_within : 1 ≤ l → low_end next l + share l ≤ high_end next (l ∷ lens) l
  next_within h = omega (
    arith,
    low_end-bump_self next l,
    low-le-high (bump next l) lens l,
    high_end-bump next l lens l,
  )

  pub IsOutside-filled :
      (p : ℕ)
      → 1 ≤ l
      → l ≤ 15
      → Regions next (l ∷ lens)
      → low_end next l ≤ p
      → p < low_end next l + share l
      → IsOutside p (bump next l) lens
  IsOutside-filled p some few r from to k h m = elim (order k l) [
    | inl below ↦ inr (omega (arith, high_end-bump next l lens k, r.apart k l h below few))
    | inr (inl same) ↦ inl (ap_lt same)
    | inr (inr above) ↦
        inl (omega (arith, next_within some, r.apart l k some above m, low_end-bump_ge next l k))
  ]
    where
      order : (a b : ℕ) → (a < b) ⊎ (a ≡ b) ⊎ (b < a)
      order a b = ground arith

      ap_lt : k ≡ l → p < low_end (bump next l) k
      ap_lt e = rw e (omega (arith, low_end-bump_self next l))

  pub IsOutside-bump : (p : ℕ) → IsOutside p next (l ∷ lens) → IsOutside p (bump next l) lens
  IsOutside-bump p out k h m =
      ground (arith, out k h m, high_end-bump next l lens k, low_end-bump_ge next l k)

  pub outside_filled :
      (p : ℕ)
      → 1 ≤ l
      → l ≤ 15
      → IsOutside p next (l ∷ lens)
      → (p < low_end next l) ⊎ (low_end next l + share l ≤ p)
  outside_filled p some few out = ground (arith, out l some few, next_within some)
