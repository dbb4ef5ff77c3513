-- ===== src/Regf/Data/Segments.antt =====
-- The segments of large data, read back from where they were allocated.
use gowim.Base.{
  ℕ, zero, suc, ◌+◌, ◌-◌, ◌*◌, ◌%◌, ◌^◌, ◌<◌, ◌≤◌, ◌≡◌, refl, subst, ap, sym, ◌∙◌, arith, List, [],
  ◌∷◌, ◌++◌, length, All, replicate, take, drop, ok, length-append, append_assoc, append-nil,
  length-replicate, length-drop,
}
use gowim.Bytes.{
  write_at, length-write_at, u32_at-append, Bytes, bytes4, u32_at, eq_bytes, join2-byte, join4-byte,
}
use gowim.Regf.Arena.{alloc, align_up8_int, new_cell}
use gowim.Regf.Data.{
  DbCell, parse_db_cell, db_bytes, read_segments, parse_segment_list, segment_list_bytes,
  join_segments, alloc_segments,
}
use gowim.Regf.Arena.RoundTrip.{align_up8_int_bounds}
use gowim.Regf.Data.RoundTrip.{Holds, alloc-Holds}

pub parse_db_cell-db_bytes :
    (d : DbCell) (r : Bytes)
    → d.num_segments < 2 ^ 16
    → d.segment_list_offset < 2 ^ 32
    → parse_db_cell (db_bytes d ++ r) ≡ ok d
unfolding parse_db_cell db_bytes eq_bytes
parse_db_cell-db_bytes d r h k =
    rw (join2-byte d.num_segments h, join4-byte d.segment_list_offset k) (ground arith)

-- A segment out of its padded cell, and what is left of the size.
take-padded : (k : ℕ) (c z : Bytes) → take (length c) (take k (take k c ++ z)) ≡ take k c
take-padded zero [] z = refl
take-padded zero (x ∷ c) z = refl
take-padded (suc k) [] z = refl
take-padded (suc k) (x ∷ c) z = ap (λ (b : Bytes). x ∷ b) (take-padded k c z)

left_over : (k : ℕ) (c : Bytes) → length c - length (take k c) ≡ length (drop k c)
left_over zero c = omega arith
left_over (suc k) [] = refl
left_over (suc k) (x ∷ c) = omega (arith, left_over k c)

take-drop : (k : ℕ) (c : Bytes) → take k c ++ drop k c ≡ c
take-drop zero c = refl
take-drop (suc k) [] = refl
take-drop (suc k) (x ∷ c) = ap (λ (b : Bytes). x ∷ b) (take-drop k c)

pub alloc_segments-extends :
    (n : ℕ) (contents b : Bytes) → (more : Bytes) × ((alloc_segments n contents b).0 ≡ b ++ more)
unfolding alloc_segments alloc
alloc_segments-extends zero contents b = ([], sym (append-nil b))
alloc_segments-extends (suc n) [] b = ([], sym (append-nil b))
alloc_segments-extends (suc n) (x ∷ xs) b =
    let cell = new_cell (take 16344 (x ∷ xs)) in
    let (more, e) = alloc_segments-extends n (drop 16344 (x ∷ xs)) (b ++ cell) in
    (cell ++ more, e ∙ append_assoc b cell more)

join_round :
    (hb : Bytes) (o : ℕ) (os : List ℕ) (c : Bytes)
    → Holds hb o (take 16344 c)
    → join_segments hb os (length (drop 16344 c)) ≡ ok (drop 16344 c)
    → join_segments hb (o ∷ os) (length c) ≡ ok c
unfolding join_segments
join_round hb o os c (pad, few, read) rest =
    let first = take-padded 16344 c (replicate pad 0) in
    rw (read, first, left_over 16344 c, rest) (ap ok (take-drop 16344 c))

pub length-alloc : (d b : Bytes) → length ((alloc d b).0) ≡ length b + align_up8_int (4 + length d)
unfolding alloc new_cell
length-alloc d b =
    let size = align_up8_int (4 + length d) in
    let body = write_at (replicate (size - 4) 0) 0 d in
    omega (
      arith,
      length-append b (bytes4 (2 ^ 32 - size % 2 ^ 32) ++ body),
      length-write_at (replicate (size - 4) 0) 0 d,
      length-replicate {A = ℕ} (size - 4) 0,
      align_up8_int_bounds (4 + length d),
    )

extended :
    (b1 b2 more : Bytes) (l : ℕ) → length b1 ≡ l → b2 ≡ b1 ++ more → length b2 < 2 ^ 31 → l < 2 ^ 31
extended b1 b2 more l h e room = omega (arith, ap (length {A = ℕ}) e, length-append b1 more)

shorter : (k n x : ℕ) (xs : Bytes) → length (x ∷ xs) ≤ suc n → length (drop (suc k) (x ∷ xs)) ≤ n
shorter k n x xs h = omega (arith, length-drop k xs)

-- The segments that are allocated are joined again, whatever is appended to the buffer.
pub join-alloc_segments :
    (n : ℕ) (contents b r : Bytes)
    → length contents ≤ n
    → length ((alloc_segments n contents b).0) < 2 ^ 31
    → join_segments
        ((alloc_segments n contents b).0 ++ r)
        ((alloc_segments n contents b).1)
        (length contents)
      ≡ ok contents
unfolding alloc_segments join_segments
join-alloc_segments zero [] b r h room = refl
join-alloc_segments zero (x ∷ xs) b r h room = absurd (omega arith)
join-alloc_segments (suc n) [] b r h room = refl
join-alloc_segments (suc n) (x ∷ xs) b r h room =
    let c = x ∷ xs in
    let seg = take 16344 c in
    let b1 = (alloc seg b).0 in
    let o = (alloc seg b).1 in
    let (b2, os) = alloc_segments n (drop 16344 c) b1 in
    let (more, e) = alloc_segments-extends n (drop 16344 c) b1 in
    let fits : length b + align_up8_int (4 + length seg) < 2 ^ 31 =
      extended b1 b2 more (length b + align_up8_int (4 + length seg)) (length-alloc seg b) e room in
    let whole : b2 ++ r ≡ b1 ++ (more ++ r) =
      ap (λ (g : Bytes). g ++ r) e ∙ append_assoc b1 more r in
    let held : Holds (b2 ++ r) o seg =
      subst (λ (g : Bytes). Holds g o seg) (sym whole) (alloc-Holds seg b (more ++ r) fits) in
    join_round (b2 ++ r) o os c held
      (join-alloc_segments n (drop 16344 c) b1 r (shorter 16343 n x xs h) room)

abbrev pub AreOffsets : List ℕ → Type 0
AreOffsets os = All (λ (o : ℕ). o < 2 ^ 32) os

pub alloc_segments-AreOffsets :
    (n : ℕ) (contents b : Bytes) → AreOffsets ((alloc_segments n contents b).1)
unfolding alloc_segments alloc
alloc_segments-AreOffsets zero contents b = tt
alloc_segments-AreOffsets (suc n) [] b = tt
alloc_segments-AreOffsets (suc n) (x ∷ xs) b = (
  omega arith,
  alloc_segments-AreOffsets n (drop 16344 (x ∷ xs)) ((alloc (take 16344 (x ∷ xs)) b).0),
)

read_segments-bytes :
    (os : List ℕ) (i : ℕ) (pre rest : Bytes)
    → length pre ≡ i * 4
    → AreOffsets os
    → read_segments (length os) i (pre ++ (segment_list_bytes os ++ rest)) ≡ os
unfolding read_segments segment_list_bytes
read_segments-bytes [] i pre rest h f = refl
read_segments-bytes (o ∷ os) i pre rest h (fo, f) =
    let tail = segment_list_bytes os ++ rest in
    let whole = pre ++ (bytes4 o ++ tail) in
    let here : u32_at whole (i * 4) ≡ o = u32_at-append pre tail (i * 4) o (sym h) fo in
    let next : read_segments (length os) (i + 1) whole ≡ os =
      ap (read_segments (length os) (i + 1)) (sym (append_assoc pre (bytes4 o) tail))
      ∙ read_segments-bytes os (i + 1) (pre ++ bytes4 o) rest
          (omega (arith, length-append pre (bytes4 o))) f in
    rw (here, next) refl

length-segment_list_bytes : (os : List ℕ) → length (segment_list_bytes os) ≡ length os * 4
unfolding segment_list_bytes
length-segment_list_bytes [] = refl
length-segment_list_bytes (o ∷ os) = omega (arith, length-segment_list_bytes os)

pub parse_segment_list-bytes :
    (os : List ℕ) (rest : Bytes)
    → AreOffsets os
    → parse_segment_list (segment_list_bytes os ++ rest) (length os) ≡ ok os
unfolding parse_segment_list
parse_segment_list-bytes os rest f =
    rw (read_segments-bytes os 0 [] rest refl f)
      (ground (arith, length-append (segment_list_bytes os) rest, length-segment_list_bytes os))
