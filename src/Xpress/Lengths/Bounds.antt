-- ===== src/Xpress/Lengths/Bounds.antt =====
-- The lengths that `buildLengths` gives are those of a code.
use gowim.Base.{
  ℕ, zero, suc, ◌+◌, ◌*◌, ◌%◌, ◌≤◌, ◌<◌, ◌≡◌, refl, sym, ◌∙◌, Option, none, some, List, [], ◌∷◌,
  length, set, replicate, length-replicate, ◌⊎◌, ltb, if◌then◌else◌, arith, false, Bool-cases, inl,
  inr, All,
}
use gowim.Xpress.Copy.Bulk.{length-set}
use gowim.Xpress.Huffman.Canonical.{kraft, IsCode}
use gowim.Xpress.Huffman.Regions.{share, share_lem, share-suc}
use gowim.Xpress.Huffman.Table.{IsLength}
use gowim.Xpress.Lengths.{
  HuffNode, leaf, branch, assign_depths, nine_each, tree_lengths, root_lengths, node_lengths,
  build_lengths, leaves_from, merge,
}

-- Setting one length adds at most its share.
kraft-set : (lens : List ℕ) (sym l : ℕ) → kraft (set lens sym l) ≤ kraft lens + share l
unfolding kraft
kraft-set [] sym l = omega arith
kraft-set (x ∷ lens) zero l = ground (arith, share_lem l)
kraft-set (x ∷ lens) (suc sym) l = omega (arith, kraft-set lens sym l)

All-set : (lens : List ℕ) (sym l : ℕ) → l ≤ 15 → All IsLength lens → All IsLength (set lens sym l)
All-set [] sym l h a = tt
All-set (x ∷ lens) zero l h a = (h, a.1)
All-set (x ∷ lens) (suc sym) l h a = (a.0, All-set lens sym l h a.1)

pub deepest-ge :
    (t : HuffNode) (d : ℕ) (state : List ℕ × ℕ)
    → (state.1 ≤ (assign_depths t d state).1) × (d ≤ (assign_depths t d state).1)
unfolding assign_depths
deepest-ge (leaf weight seq sym) d (lens, deepest) = ground arith
deepest-ge (branch weight seq left right) d state =
    let (a, b) = deepest-ge left (d + 1) state in
    let (c, e) = deepest-ge right (d + 1) (assign_depths left (d + 1) state) in
    (omega arith, omega arith)

pub record Lengths (lens : List ℕ) (limit : ℕ) : Type 0 where
  pub short : All IsLength lens
  pub fits : kraft lens ≤ limit

assign_depths-Lengths :
    (t : HuffNode) (d : ℕ) (state : List ℕ × ℕ) (limit : ℕ)
    → Lengths state.0 limit
    → (assign_depths t d state).1 ≤ 15
    → Lengths (assign_depths t d state).0 (limit + share d)
unfolding assign_depths
assign_depths-Lengths (leaf weight seq sym) d (lens, deepest) limit g h =
    let few : d ≤ 15 = ground arith in
    let whole : d % 256 ≡ d = omega arith in
    rw whole (record {
      short = All-set lens sym d few g.short;
      fits = omega (arith, kraft-set lens sym d, g.fits);
    })
assign_depths-Lengths (branch weight seq left right) d state limit g h =
    let state1 = assign_depths left (d + 1) state in
    let (a, b) = deepest-ge right (d + 1) state1 in
    let g1 = assign_depths-Lengths left (d + 1) state limit g (omega arith) in
    let g2 = assign_depths-Lengths right (d + 1) state1 (limit + share (d + 1)) g1 h in
    record { short = g2.short; fits = omega (arith, g2.fits, halves d (omega arith)) }
  where
    halves : (d : ℕ) → d < 15 → share (d + 1) + share (d + 1) ≡ share d
    halves d h = let e : d + 1 ≡ suc d = omega arith in rw e (omega (arith, share-suc d h))

zeros-Lengths : (n : ℕ) → Lengths (replicate n 0) 0
unfolding kraft
zeros-Lengths zero = record { short = tt; fits = omega arith }
zeros-Lengths (suc n) =
    let g = zeros-Lengths n in
    record { short = (omega arith, g.short); fits = omega (arith, g.fits) }

-- Lengths that are all 0 or 9.
abbrev IsNine : ℕ → Type 0
IsNine l = (l ≡ 0) ⊎ (l ≡ 9)

kraft-IsNine : (lens : List ℕ) → All IsNine lens → kraft lens ≤ 64 * length lens
unfolding kraft
kraft-IsNine [] h = omega arith
kraft-IsNine (l ∷ lens) (inl e, hs) = rw e (omega (arith, kraft-IsNine lens hs))
kraft-IsNine (l ∷ lens) (inr e, hs) = rw e (omega (arith, kraft-IsNine lens hs))

IsLength-IsNine : (lens : List ℕ) → All IsNine lens → All IsLength lens
IsLength-IsNine [] h = tt
IsLength-IsNine (l ∷ lens) (h, hs) = (few l h, IsLength-IsNine lens hs)
  where
    few : (k : ℕ) → IsNine k → k ≤ 15
    few k h = ground arith

IsNine-zeros : (n : ℕ) → All IsNine (replicate n 0)
IsNine-zeros zero = tt
IsNine-zeros (suc n) = (inl refl, IsNine-zeros n)

IsNine-set : (lens : List ℕ) (sym : ℕ) → All IsNine lens → All IsNine (set lens sym 9)
IsNine-set [] sym h = tt
IsNine-set (x ∷ lens) zero h = (inr refl, h.1)
IsNine-set (x ∷ lens) (suc sym) h = (h.0, IsNine-set lens sym h.1)

nine_each-IsNine :
    (nodes : List HuffNode) (lens : List ℕ) → All IsNine lens → All IsNine (nine_each nodes lens)
unfolding nine_each
nine_each-IsNine [] lens h = h
nine_each-IsNine (leaf weight seq sym ∷ nodes) lens h =
    nine_each-IsNine nodes (set lens sym 9) (IsNine-set lens sym h)
nine_each-IsNine (branch weight seq left right ∷ nodes) lens h = nine_each-IsNine nodes lens h

pub length-nine_each :
    (nodes : List HuffNode) (lens : List ℕ) → length (nine_each nodes lens) ≡ length lens
unfolding nine_each
length-nine_each [] lens = refl
length-nine_each (leaf weight seq sym ∷ nodes) lens =
    length-nine_each nodes (set lens sym 9) ∙ length-set lens sym 9
length-nine_each (branch weight seq left right ∷ nodes) lens = length-nine_each nodes lens

pub length-assign_depths :
    (t : HuffNode) (d : ℕ) (state : List ℕ × ℕ)
    → length (assign_depths t d state).0 ≡ length state.0
unfolding assign_depths
length-assign_depths (leaf weight seq sym) d (lens, deepest) = length-set lens sym (d % 256)
length-assign_depths (branch weight seq left right) d state =
    length-assign_depths right (d + 1) (assign_depths left (d + 1) state)
    ∙ length-assign_depths left (d + 1) state

-- What every result has.
abbrev IsTable : List ℕ → Type 0
IsTable lens = IsCode lens × (length lens ≡ 512)

zero_lens : List ℕ
zero_lens = replicate 512 0

zero_size : length zero_lens ≡ 512
unfolding zero_lens
zero_size = length-replicate {A = ℕ} 512 0

zeros-IsTable : IsTable zero_lens
unfolding zero_lens
zeros-IsTable =
    let g = zeros-Lengths 512 in
    (record { short = g.short; fits = omega (arith, g.fits) }, length-replicate {A = ℕ} 512 0)

one-IsTable :
    (lens : List ℕ) (sym : ℕ) → Lengths lens 0 → length lens ≡ 512 → IsTable (set lens sym 1)
one-IsTable lens sym g e = (
  record {
    short = All-set lens sym 1 (omega arith) g.short;
    fits = omega (arith, kraft-set lens sym 1, g.fits, share_lem 1);
  },
  length-set lens sym 1 ∙ e,
)

not_deep : (n : ℕ) → ltb 15 n ≡ false → n ≤ 15
not_deep n h = ground arith

chosen-IsTable :
    (nodes : List HuffNode) (root : HuffNode) (zeros : List ℕ)
    → Lengths zeros 0
    → All IsNine zeros
    → length zeros ≡ 512
    → IsTable (
        if ltb 15 (assign_depths root 0 (zeros, 0)).1
        then nine_each nodes zeros
        else (assign_depths root 0 (zeros, 0)).0)
chosen-IsTable nodes root zeros g nine e =
    elim (Bool-cases (ltb 15 (assign_depths root 0 (zeros, 0)).1)) [
      | inl deep ↦
          let all = nine_each-IsNine nodes zeros nine in
          let size = length-nine_each nodes zeros ∙ e in
          rw deep (
            record {
              short = IsLength-IsNine (nine_each nodes zeros) all;
              fits = omega (arith, kraft-IsNine (nine_each nodes zeros) all, size);
            },
            size,
          )
      | inr shallow ↦
          let l = assign_depths-Lengths root 0 (zeros, 0) 0 g (not_deep _ shallow) in
          rw shallow (
            record { short = l.short; fits = omega (arith, l.fits, share_lem 0) },
            length-assign_depths root 0 (zeros, 0) ∙ e,
          )
    ]

tree-IsTable : (nodes : List HuffNode) (root : HuffNode) → IsTable (tree_lengths nodes root)
unfolding tree_lengths
tree-IsTable nodes root =
    chosen-IsTable nodes root (replicate 512 0) (zeros-Lengths 512) (IsNine-zeros 512)
      (length-replicate {A = ℕ} 512 0)

root-IsTable : (nodes : List HuffNode) (root : Option HuffNode) → IsTable (root_lengths nodes root)
unfolding root_lengths zero_lens
root-IsTable nodes none = zeros-IsTable
root-IsTable nodes (some root) = tree-IsTable nodes root

node-IsTable : (nodes : List HuffNode) → IsTable (node_lengths nodes)
unfolding node_lengths zero_lens
node-IsTable [] = zeros-IsTable
node-IsTable (leaf weight seq sym ∷ []) =
    one-IsTable (replicate 512 0) sym (zeros-Lengths 512) (length-replicate {A = ℕ} 512 0)
node-IsTable (branch weight seq left right ∷ []) = zeros-IsTable
node-IsTable (x ∷ y ∷ nodes) =
    let all = x ∷ y ∷ nodes in root-IsTable all (merge (length all) (length all) all)

-- Whatever the frequencies, the 512 lengths are those of a code: none over 15 bits, and together no
-- more codewords than the bits allow.
pub build_lengths-IsCode :
    (freqs : List ℕ) → IsCode (build_lengths freqs) × (length (build_lengths freqs) ≡ 512)
unfolding build_lengths
build_lengths-IsCode freqs = node-IsTable (leaves_from 0 0 freqs)
