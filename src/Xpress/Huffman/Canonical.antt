-- ===== src/Xpress/Huffman/Canonical.antt =====
-- The canonical code: the first codeword of each length lies behind all entries of the shorter ones,
-- so that the lengths of a complete or incomplete code leave room for every codeword.
use gowim.Base.{
  ℕ, zero, suc, ◌+◌, ◌-◌, ◌*◌, ◌^◌, ◌≤◌, ◌<◌, ◌≡◌, ◌⊎◌, inl, inr, refl, ap, sym, ◌∙◌, List, [], ◌∷◌,
  ltb, ◌==◌, if◌then◌else◌, arith, Bool-cases, ok, All,
}
use gowim.Xpress.Huffman.{
  bump, count_lengths, next_code, canonical_codewords, build_huffman_decoder,
}
use gowim.Xpress.Huffman.Regions.{
  share, share_lem, share-suc, bump_sum, count_of-unused, suc_product, count_of, low_end, high_end,
  low_end_lem, high_end_lem, Regions,
}
use gowim.Xpress.Huffman.Table.{IsLength, fill_table-Filled, HasEntries, HasRoom}

-- The table entries that the codewords of these lengths need.
unfoldable pub kraft : List ℕ → ℕ
kraft [] = 0
kraft (l ∷ lens) = (if l == 0 then 0 else 2 ^ (15 - l)) + kraft lens

-- Lengths that a code can have: none over 15 bits, and no more codewords than the bits allow.
pub record IsCode (lens : List ℕ) : Type 0 where
  pub short : All IsLength lens
  pub fits : kraft lens ≤ 32768

-- The entries of the codewords shorter than `b`.
below : ℕ → List ℕ → ℕ
below b [] = 0
below b (l ∷ lens) = (if l == 0 then 0 else if ltb l b then share l else 0) + below b lens

below-one : (lens : List ℕ) → below 1 lens ≡ 0
unfolding below
below-one [] = refl
below-one (l ∷ lens) = ground (arith, below-one lens)

order : (a b : ℕ) → (a < b) ⊎ (a ≡ b) ⊎ (b < a)
order a b = ground arith

below-suc :
    (b : ℕ) (lens : List ℕ) → 1 ≤ b → below (suc b) lens ≡ below b lens + count_of b lens * share b
unfolding below count_of
below-suc b [] h = omega arith
below-suc b (l ∷ lens) h =
    let more = below-suc b lens h in
    let split = suc_product (count_of b lens) (share b) in
    elim (order l b) [
      | inl lt ↦ ground (arith, more, split)
      | inr (inl e) ↦ let same : share l ≡ share b = ap share e in ground (arith, more, split, same)
      | inr (inr gt) ↦ ground (arith, more, split)
    ]

below_mono : (a b : ℕ) (lens : List ℕ) → a ≤ b → below a lens ≤ below b lens
unfolding below
below_mono a b [] h = omega arith
below_mono a b (l ∷ lens) h = ground (arith, below_mono a b lens h)

below-le-kraft : (b : ℕ) (lens : List ℕ) → below b lens ≤ kraft lens
unfolding below kraft
below-le-kraft b [] = omega arith
below-le-kraft b (l ∷ lens) = ground (arith, below-le-kraft b lens, share_lem l)

count_lengths_lem :
    (lens : List ℕ) (counts : ℕ → ℕ) (k : ℕ)
    → 1 ≤ k
    → count_lengths counts lens k ≡ counts k + count_of k lens
unfolding count_lengths count_of
count_lengths_lem [] counts k h = omega arith
count_lengths_lem (l ∷ lens) counts k h = elim (Bool-cases (ltb 0 l)) [
  | inl used ↦ rw used (count_lengths_lem lens (bump counts l) k h ∙ bump_sum counts l k lens)
  | inr unused ↦ rw unused (
      count_lengths_lem lens counts k h
      ∙ ap (λ (x : ℕ). counts k + x) (sym (count_of-unused l k lens (ground arith) h)))
]

bump_zero : (counts : ℕ → ℕ) (l : ℕ) → 0 < l → bump counts l 0 ≡ counts 0
unfolding bump
bump_zero counts l h = ground arith

pub count_lengths_zero : (lens : List ℕ) (counts : ℕ → ℕ) → count_lengths counts lens 0 ≡ counts 0
unfolding count_lengths
count_lengths_zero [] counts = refl
count_lengths_zero (l ∷ lens) counts = elim (Bool-cases (ltb 0 l)) [
  | inl used ↦ rw used (count_lengths_zero lens (bump counts l) ∙ bump_zero counts l (ground arith))
  | inr unused ↦ rw unused (count_lengths_zero lens counts)
]

abbrev counted : List ℕ → ℕ → ℕ
counted lens = count_lengths (λ l. 0) lens

step_product :
    (code count u v before : ℕ)
    → u ≡ 2 * v
    → code * u ≡ before
    → (code + count) * 2 * v ≡ before + count * u
step_product code count u v before e f = grind arith

next_code_low :
    (lens : List ℕ) (b : ℕ)
    → b < 15
    → next_code (counted lens) (suc b) * share (suc b) ≡ below (suc b) lens
unfolding next_code
next_code_low lens zero h = rw (count_lengths_zero lens (λ l. 0), below-one lens) (omega arith)
next_code_low lens (suc b) h =
    step_product (next_code (counted lens) (suc b)) (counted lens (suc b)) (share (suc b))
      (share (suc (suc b))) (below (suc b) lens) (share-suc (suc b) (omega arith))
      (next_code_low lens b (omega arith))
    ∙ omega (
      arith,
      ap (λ (x : ℕ). x * share (suc b)) (count_lengths_lem lens (λ l. 0) (suc b) (omega arith)),
      below-suc (suc b) lens (omega arith),
    )

add_product : (a b u : ℕ) → (a + b) * u ≡ a * u + b * u
add_product a b u = grind arith

module _ (lens : List ℕ) where
  abbrev first_codes : ℕ → ℕ
  first_codes = next_code (counted lens)

  low_below : (b : ℕ) → 1 ≤ b → b ≤ 15 → low_end first_codes b ≡ below b lens
  low_below zero h k = absurd (omega arith)
  low_below (suc b) h k = low_end_lem first_codes (suc b) ∙ next_code_low lens b (omega arith)

  high_below : (b : ℕ) → 1 ≤ b → b ≤ 15 → high_end first_codes lens b ≡ below (suc b) lens
  high_below b h k =
      high_end_lem first_codes lens b
      ∙ add_product (first_codes b) (count_of b lens) (share b)
      ∙ omega (arith, low_below b h k, low_end_lem first_codes b, below-suc b lens h)

  pub first_codes-Regions :
      kraft lens ≤ 32768 → Regions (next_code (count_lengths (λ l. 0) lens)) lens
  first_codes-Regions fits = record {
    apart = λ a b h k m. omega (
      arith,
      high_below a h (omega arith),
      low_below b (omega arith) m,
      below_mono (suc a) b lens (omega arith),
    );
    top = λ a h k. omega (arith, high_below a h k, below-le-kraft (suc a) lens);
  }

-- For lengths that a code can have, the decoder's table is built without an index out of range, and
-- every symbol of the code stands in all entries that begin with its codeword, which are all in the
-- table.
pub build_huffman_decoder-HasEntries :
    (lens : List ℕ)
    → IsCode lens
    → (table : ℕ → ℕ) × (build_huffman_decoder lens ≡ ok table)
      × HasEntries table 0 lens (canonical_codewords lens)
      × HasRoom lens (canonical_codewords lens)
unfolding build_huffman_decoder canonical_codewords
build_huffman_decoder-HasEntries lens c =
    let f =
      fill_table-Filled lens (λ p. 0) 0 (next_code (count_lengths (λ l. 0) lens)) c.short
        (first_codes-Regions lens c.fits) in
    (f.result, f.runs, f.entries, f.room)
