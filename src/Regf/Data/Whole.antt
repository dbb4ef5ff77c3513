-- ===== src/Regf/Data/Whole.antt =====
-- What `buildValueCell` stores for the data of a value, `resolveValueData` gives back.
use gowim.Base.{
  ℕ, zero, suc, ◌+◌, ◌*◌, ◌%◌, ◌^◌, ◌<◌, ◌≤◌, ◌≡◌, inl, inr, refl, subst, ap, sym, ◌∙◌, arith, true,
  false, List, [], ◌∷◌, ◌++◌, length, ltb, leb, All, replicate, take, drop, ok, append_assoc,
  length-drop, Bool-cases,
}
use gowim.Bytes.{Bytes, IsByte, eq_bytes}
use gowim.Regf.Arena.{alloc, new_cell}
use gowim.Regf.Data.{
  DbCell, Stored, db_bytes, is_big, parse_db_cell, parse_segment_list, segment_list_bytes,
  read_data, join_segments, resolve_segments, resolve_value_data, alloc_segments, store_segments,
  store_data, is_inlinable_data_size,
}
use gowim.Regf.Data.RoundTrip.{
  Holds, alloc-Holds, resolve-inline, resolve-one_cell, not_zero, inlinable-zero,
}
use gowim.Regf.Data.Segments.{
  parse_db_cell-db_bytes, join-alloc_segments, alloc_segments-AreOffsets, parse_segment_list-bytes,
  length-alloc,
}

-- As many segments as their sizes allow.
segments_count :
    (n : ℕ) (contents b : Bytes)
    → length ((alloc_segments n contents b).1) * 16344 ≤ length contents + 16343
unfolding alloc_segments
segments_count zero contents b = omega arith
segments_count (suc n) [] b = omega arith
segments_count (suc n) (x ∷ xs) b =
    let rest = segments_count n (drop 16344 (x ∷ xs)) ((alloc (take 16344 (x ∷ xs)) b).0) in
    omega (arith, length-drop 16343 xs)

more_than : (n : ℕ) → 16344 < n → ltb 16344 n ≡ true
more_than n h = ground arith

no_flag : (n : ℕ) → n < 2 ^ 31 → leb (2 ^ 31) n ≡ false
no_flag n h = ground arith

is_big-db :
    (size : ℕ) (d : DbCell) (r : Bytes) → 16344 < size → is_big size (db_bytes d ++ r) ≡ true
unfolding is_big db_bytes eq_bytes
is_big-db size d r h = rw (more_than size h) (ground arith)

resolve-steps :
    (hbins cell list : Bytes) (size off : ℕ) (d : DbCell) (os : List ℕ) (contents : Bytes)
    → 16344 < size
    → size < 2 ^ 31
    → read_data hbins off ≡ ok cell
    → is_big size cell ≡ true
    → parse_db_cell cell ≡ ok d
    → read_data hbins d.segment_list_offset ≡ ok list
    → parse_segment_list list d.num_segments ≡ ok os
    → join_segments hbins os size ≡ ok contents
    → resolve_value_data hbins size off ≡ ok contents
unfolding resolve_value_data resolve_segments
resolve-steps hbins cell list size off d os contents many small read big db list_read offsets
      joined =
    rw (no_flag size small, not_zero size (omega arith), read, big, db, list_read, offsets, joined)
      refl

-- Data in segments.
resolve-segments :
    (contents b rest : Bytes)
    → 16344 < length contents
    → length contents ≤ 65535 * 16344
    → (let s = store_segments contents b in
        length s.buf < 2 ^ 31 → resolve_value_data (s.buf ++ rest) s.size s.offset ≡ ok contents)
unfolding store_segments
resolve-segments contents b rest many bound room =
    let n = length contents in
    let (b1, os) = alloc_segments n contents b in
    let names = segment_list_bytes os in
    let b2 = (alloc names b1).0 in
    let list = (alloc names b1).1 in
    let d : DbCell = record { num_segments = length os % 2 ^ 16; segment_list_offset = list } in
    let b3 = (alloc (db_bytes d) b2).0 in
    let o = (alloc (db_bytes d) b2).1 in
    let cell2 = new_cell names in
    let cell3 = new_cell (db_bytes d) in
    let l2 = length-alloc names b1 in
    let l3 = length-alloc (db_bytes d) b2 in
    let count : length os % 2 ^ 16 ≡ length os = omega (arith, segments_count n contents b) in
    let size : n % 2 ^ 32 ≡ n = omega arith in
    let (pad3, few3, db_read) = alloc-Holds (db_bytes d) b2 rest (omega arith) in
    let whole2 : b3 ++ rest ≡ b2 ++ (cell3 ++ rest) = unfold alloc in append_assoc b2 cell3 rest in
    let held2 = alloc-Holds names b1 (cell3 ++ rest) (omega arith) in
    let (pad2, few2, list_read) = subst (λ (g : Bytes). Holds g list names) (sym whole2) held2 in
    let whole1 : b3 ++ rest ≡ b1 ++ (cell2 ++ (cell3 ++ rest)) =
      whole2 ∙ unfold alloc in append_assoc b1 cell2 (cell3 ++ rest) in
    let joined =
      join-alloc_segments n contents b (cell2 ++ (cell3 ++ rest)) (omega arith) (omega arith) in
    let offsets =
      parse_segment_list-bytes os (replicate pad2 0) (alloc_segments-AreOffsets n contents b) in
    rw size (
      resolve-steps (b3 ++ rest) (db_bytes d ++ replicate pad3 0) (names ++ replicate pad2 0) n o d
        os contents many (omega arith) db_read (is_big-db n d (replicate pad3 0) many)
        (parse_db_cell-db_bytes d (replicate pad3 0) (omega arith) (unfold alloc in omega arith))
        list_read (ap (parse_segment_list (names ++ replicate pad2 0)) count ∙ offsets)
        (ap (λ (g : Bytes). join_segments g os n) whole1 ∙ joined))

store-one_cell :
    (contents b : Bytes)
    → is_inlinable_data_size (length contents) ≡ false
    → leb (length contents) 16344 ≡ true
    → (store_data contents b).buf ≡ (alloc contents b).0
unfolding store_data
store-one_cell contents b large one =
    rw (not_zero (length contents) (inlinable-zero (length contents) large), large, one) refl

store-segments :
    (contents b : Bytes)
    → is_inlinable_data_size (length contents) ≡ false
    → leb (length contents) 16344 ≡ false
    → store_data contents b ≡ store_segments contents b
unfolding store_data
store-segments contents b large many =
    rw (not_zero (length contents) (inlinable-zero (length contents) large), large, many) refl

at_most_of : (n : ℕ) → leb n 16344 ≡ true → n ≤ 16344
at_most_of n h = ground arith

more_than_of : (n : ℕ) → leb n 16344 ≡ false → 16344 < n
more_than_of n h = ground arith

-- The data that `buildValueCell` stores, in the offset, in a cell or in segments, are what
-- `resolveValueData` finds, whatever is allocated later. There are at most 65535 segments, and the
-- buffer stays below 2 GiB.
pub resolve-store_data :
    (contents b rest : Bytes)
    → All IsByte contents
    → length contents ≤ 65535 * 16344
    → length ((store_data contents b).buf) < 2 ^ 31
    → resolve_value_data
        ((store_data contents b).buf ++ rest)
        (store_data contents b).size
        (store_data contents b).offset
      ≡ ok contents
resolve-store_data contents b rest f bound room =
    elim (Bool-cases (is_inlinable_data_size (length contents))) [
      | inl inline ↦ resolve-inline contents b ((store_data contents b).buf ++ rest) inline f
      | inr large ↦ elim (Bool-cases (leb (length contents) 16344)) [
        | inl one ↦ resolve-one_cell contents b rest large (at_most_of (length contents) one) (
            omega (
              arith,
              ap (length {A = ℕ}) (store-one_cell contents b large one),
              length-alloc contents b,
            ))
        | inr many ↦
            let e = store-segments contents b large many in
            subst (λ (s : Stored). resolve_value_data (s.buf ++ rest) s.size s.offset ≡ ok contents)
              (sym e)
              (resolve-segments contents b rest (more_than_of (length contents) many) bound
                (omega (arith, ap (λ (s : Stored). length s.buf) e)))
      ]
    ]
