-- ===== src/Xpress/Huffman/Table.antt =====
-- The table that `buildHuffmanDecoder` fills: no index is out of range, and every codeword's entries
-- stay as they are filled.
use gowim.Base.{
  ℕ, zero, suc, ◌+◌, ◌*◌, ◌%◌, ◌≤◌, ◌<◌, ◌≡◌, ◌⊎◌, inl, inr, refl, ap, sym, ◌∙◌, List, [], ◌∷◌, leb,
  ◌==◌, arith, true, false, Bool-cases, ok, All, get_or,
}
use gowim.Xpress.Huffman.{bump, fill, fill_table, assign_codewords}
use gowim.Xpress.Huffman.Regions.{
  share, share_lem, share_pos, low_end, low_end_lem, Regions, IsOutside, Regions-unused,
  IsOutside-unused, Regions-bump, next_within, IsOutside-filled, IsOutside-bump, outside_filled,
}

abbrev pub IsLength : ℕ → Type 0
IsLength l = l ≤ 15

-- The entries of the symbols from `sym` on, where `lens` and `codes` belong to them.
abbrev pub HasEntries : (ℕ → ℕ) → ℕ → List ℕ → List ℕ → Type 0
HasEntries table sym lens codes =
    (i j : ℕ)
    → 1 ≤ get_or lens i 0
    → j < share (get_or lens i 0)
    → table (get_or codes i 0 * share (get_or lens i 0) + j) ≡ (sym + i) * 32 + get_or lens i 0

-- Each codeword's entries end within the table.
abbrev pub HasRoom : List ℕ → List ℕ → Type 0
HasRoom lens codes =
    (i : ℕ)
    → 1 ≤ get_or lens i 0
    → get_or codes i 0 * share (get_or lens i 0) + share (get_or lens i 0) ≤ 32768

fill_self :
    (table : ℕ → ℕ) (base count entry p : ℕ)
    → base ≤ p
    → p < base + count
    → fill table base count entry p ≡ entry
unfolding fill
fill_self table base count entry p h k = ground arith

fill_other :
    (table : ℕ → ℕ) (base count entry p : ℕ)
    → (p < base) ⊎ (base + count ≤ p)
    → fill table base count entry p ≡ table p
unfolding fill
fill_other table base count entry p h = ground arith

pub record Filled (table : ℕ → ℕ) (sym : ℕ) (next : ℕ → ℕ) (lens : List ℕ) : Type 0 where
  pub result : ℕ → ℕ
  pub runs : fill_table table sym lens (assign_codewords next lens) ≡ ok result
  pub outside : (p : ℕ) → IsOutside p next lens → result p ≡ table p
  pub entries : HasEntries result sym lens (assign_codewords next lens)
  pub room : HasRoom lens (assign_codewords next lens)

le_product : (a u : ℕ) → 0 < u → a ≤ a * u
le_product a u h = grind arith

-- The codeword is not cut to 16 bits, and its entries end within the table.
module _ (next : ℕ → ℕ) (l : ℕ) (lens : List ℕ) (some : 1 ≤ l) (few : l ≤ 15)
    (r : Regions next (l ∷ lens)) where
  base_le : low_end next l + share l ≤ 32768
  base_le = omega (arith, next_within next l lens some, r.top l some few)

  code_whole : next l % 65536 ≡ next l
  code_whole =
      cut (next l)
        (omega (arith, le_product (next l) (share l) (share_pos l), low_end_lem next l, base_le))
    where
      cut : (a : ℕ) → a ≤ 32768 → a % 65536 ≡ a
      cut a h = omega arith

module _ (table : ℕ → ℕ) (sym : ℕ) (next : ℕ → ℕ) (l : ℕ) (lens : List ℕ) where
  module _ (some : 1 ≤ l) where
    used : (l == 0) ≡ false
    used = ground arith

    assign_used :
        next l % 65536 ≡ next l
        → assign_codewords next (l ∷ lens) ≡ next l ∷ assign_codewords (bump next l) lens
    unfolding assign_codewords
    assign_used whole = rw (used, whole) refl

    filled : ℕ → ℕ
    filled = fill table (low_end next l) (share l) (sym * 32 + l)

    fill_table_used :
        (codes : List ℕ)
        → low_end next l + share l ≤ 32768
        → fill_table table sym (l ∷ lens) (next l ∷ codes) ≡ fill_table filled (sym + 1) lens codes
    unfolding fill_table filled
    fill_table_used codes fits =
        let within : leb (low_end next l + share l) 32768 ≡ true = ground arith in
        rw (used, ← share_lem l, ← low_end_lem next l, within) refl

    used_step :
        l ≤ 15
        → Regions next (l ∷ lens)
        → Filled filled (sym + 1) (bump next l) lens
        → Filled table sym next (l ∷ lens)
    used_step few r f =
        let whole = code_whole next l lens some few r in
        let first : (p : ℕ)
            → low_end next l ≤ p
            → p < low_end next l + share l
            → f.result p ≡ sym * 32 + l =
          λ p from to.
            f.outside p (IsOutside-filled next l lens p some few r from to)
            ∙ unfold filled in
              (fill_self table (low_end next l) (share l) (sym * 32 + l) p from to) in
        record {
          result = f.result;
          runs =
              ap (fill_table table sym (l ∷ lens)) (assign_used whole)
              ∙ fill_table_used (assign_codewords (bump next l) lens)
                  (base_le next l lens some few r)
              ∙ f.runs;
          outside = λ p out.
              f.outside p (IsOutside-bump next l lens p out)
              ∙ unfold filled in
                (fill_other table (low_end next l) (share l) (sym * 32 + l) p
                  (outside_filled next l lens p some few out));
          entries = rw (assign_used whole) (entries_used first f.entries);
          room = rw (assign_used whole) (room_used (base_le next l lens some few r) f.room);
        }
      where
        room_used :
            low_end next l + share l ≤ 32768
            → HasRoom lens (assign_codewords (bump next l) lens)
            → HasRoom (l ∷ lens) (next l ∷ assign_codewords (bump next l) lens)
        room_used fits later zero h = omega (arith, low_end_lem next l)
        room_used fits later (suc i) h = later i h

        entries_used :
            ((p : ℕ)
              → low_end next l ≤ p
              → p < low_end next l + share l
              → f.result p ≡ sym * 32 + l)
            → HasEntries f.result (sym + 1) lens (assign_codewords (bump next l) lens)
            → HasEntries f.result sym (l ∷ lens) (next l ∷ assign_codewords (bump next l) lens)
        entries_used first later zero j h inside =
            first (next l * share l + j) (omega (arith, low_end_lem next l))
              (omega (arith, low_end_lem next l))
            ∙ omega arith
        entries_used first later (suc i) j h inside = later i j h inside ∙ omega arith

  unused_step : l ≡ 0 → Filled table (sym + 1) next lens → Filled table sym next (l ∷ lens)
  unused_step e f = record {
    result = f.result;
    runs = ap (fill_table table sym (l ∷ lens)) assign_unused ∙ fill_table_unused ∙ f.runs;
    outside = λ p out. f.outside p (IsOutside-unused p next l lens e out);
    entries = rw assign_unused (entries_unused f.entries);
    room = rw assign_unused (room_unused f.room);
  }
    where
      room_unused :
          HasRoom lens (assign_codewords next lens)
          → HasRoom (l ∷ lens) (0 ∷ assign_codewords next lens)
      room_unused later zero h = absurd (omega arith)
      room_unused later (suc i) h = later i h

      not_used : (l == 0) ≡ true
      not_used = ground arith

      assign_unused : assign_codewords next (l ∷ lens) ≡ 0 ∷ assign_codewords next lens
      assign_unused = unfold assign_codewords in rw not_used refl

      fill_table_unused :
          fill_table table sym (l ∷ lens) (0 ∷ assign_codewords next lens)
          ≡ fill_table table (sym + 1) lens (assign_codewords next lens)
      fill_table_unused = unfold fill_table in rw not_used refl

      entries_unused :
          HasEntries f.result (sym + 1) lens (assign_codewords next lens)
          → HasEntries f.result sym (l ∷ lens) (0 ∷ assign_codewords next lens)
      entries_unused later zero j h inside = absurd (omega arith)
      entries_unused later (suc i) j h inside = later i j h inside ∙ omega arith

pub fill_table-Filled :
    (lens : List ℕ) (table : ℕ → ℕ) (sym : ℕ) (next : ℕ → ℕ)
    → All IsLength lens
    → Regions next lens
    → Filled table sym next lens
unfolding fill_table assign_codewords filled
fill_table-Filled [] table sym next h r = record {
  result = table;
  runs = refl;
  outside = λ p out. refl;
  entries = λ i j some inside. elim some [ ];
  room = λ i some. elim some [ ];
}
fill_table-Filled (l ∷ lens) table sym next (h, hs) r = elim (Bool-cases (l == 0)) [
  | inl unused ↦
      unused_step table sym next l lens (ground arith) (
        fill_table-Filled lens table (sym + 1) next hs
          (Regions-unused next l lens (ground arith) r))
  | inr used ↦
      let some : 1 ≤ l = ground arith in
      used_step table sym next l lens some h r (
        fill_table-Filled lens (fill table (low_end next l) (share l) (sym * 32 + l)) (sym + 1)
          (bump next l) hs (Regions-bump next l lens r))
]
