-- ===== src/Regf/Subkeys/RoundTrip.antt =====
-- A list of subkeys is read back from its cell.
use gowim.Base.{
  ℕ, ◌+◌, ◌*◌, ◌^◌, ◌<◌, ◌≤◌, ◌≡◌, ◌⊎◌, inl, inr, refl, ap, sym, ◌∙◌, arith, true, false, List, [],
  ◌∷◌, ◌++◌, length, All, append_assoc, length-append, ok,
}
use gowim.Bytes.{u32_at-append, Bytes, bytes2, bytes4, u16_at, u32_at, slice, eq_bytes, join2-byte}
use gowim.Regf.Subkeys.{
  SubkeyListEntry, SubkeyList, has_hashes, has_offsets, read_hashed, read_offsets,
  parse_subkey_list, list_header, hashed_bytes, offset_bytes, append_subkey_list,
}

-- A list of 2-byte signature and at most 65535 entries, whose hashes are stored only under `lf` and
-- `lh`.
abbrev pub FitsEntry : SubkeyListEntry → Type 0
FitsEntry e = (e.offset < 2 ^ 32) × (e.hash < 2 ^ 32)

abbrev pub HasNoHash : SubkeyListEntry → Type 0
HasNoHash e = (e.offset < 2 ^ 32) × (e.hash ≡ 0)

abbrev pub FitsList : SubkeyList → Type 0
FitsList l =
    (length l.entries < 2 ^ 16)
    × (((has_hashes l.signature ≡ true) × All FitsEntry l.entries)
        ⊎ ((has_hashes l.signature ≡ false)
            × (has_offsets l.signature ≡ true)
            × All HasNoHash l.entries))

read_hashed-hashed_bytes :
    (es : List SubkeyListEntry) (i : ℕ) (pre rest : Bytes)
    → length pre ≡ 4 + i * 8
    → All FitsEntry es
    → read_hashed (length es) i (pre ++ (hashed_bytes es ++ rest)) ≡ es
unfolding read_hashed hashed_bytes
read_hashed-hashed_bytes [] i pre rest h f = refl
read_hashed-hashed_bytes (e ∷ es) i pre rest h ((fo, fh), f) =
    let o = bytes4 e.offset in
    let k = bytes4 e.hash in
    let tail = hashed_bytes es ++ rest in
    let whole = pre ++ (o ++ (k ++ tail)) in
    let offset_is : u32_at whole (4 + i * 8) ≡ e.offset =
      u32_at-append pre (k ++ tail) (4 + i * 8) e.offset (sym h) fo in
    let hash_is : u32_at whole (4 + i * 8 + 4) ≡ e.hash =
      ap (λ (b : Bytes). u32_at b (4 + i * 8 + 4)) (sym (append_assoc pre o (k ++ tail)))
      ∙ u32_at-append (pre ++ o) tail (4 + i * 8 + 4) e.hash (omega (arith, length-append pre o))
          fh in
    let next : read_hashed (length es) (i + 1) whole ≡ es =
      ap (read_hashed (length es) (i + 1)) (sym (append_assoc pre (o ++ k) tail))
      ∙ read_hashed-hashed_bytes es (i + 1) (pre ++ (o ++ k)) rest
          (omega (arith, length-append pre (o ++ k))) f in
    rw (offset_is, hash_is, next) refl

read_offsets-offset_bytes :
    (es : List SubkeyListEntry) (i : ℕ) (pre rest : Bytes)
    → length pre ≡ 4 + i * 4
    → All HasNoHash es
    → read_offsets (length es) i (pre ++ (offset_bytes es ++ rest)) ≡ es
unfolding read_offsets offset_bytes
read_offsets-offset_bytes [] i pre rest h f = refl
read_offsets-offset_bytes (e ∷ es) i pre rest h ((fo, fh), f) =
    let o = bytes4 e.offset in
    let tail = offset_bytes es ++ rest in
    let whole = pre ++ (o ++ tail) in
    let offset_is : u32_at whole (4 + i * 4) ≡ e.offset =
      u32_at-append pre tail (4 + i * 4) e.offset (sym h) fo in
    let next : read_offsets (length es) (i + 1) whole ≡ es =
      ap (read_offsets (length es) (i + 1)) (sym (append_assoc pre o tail))
      ∙ read_offsets-offset_bytes es (i + 1) (pre ++ o) rest (omega (arith, length-append pre o))
          f in
    rw (offset_is, next) (ap (λ (x : ℕ). (record { offset = e.offset; hash = x }) ∷ es) (sym fh))

length-hashed_bytes : (es : List SubkeyListEntry) → length (hashed_bytes es) ≡ length es * 8
unfolding hashed_bytes
length-hashed_bytes [] = refl
length-hashed_bytes (e ∷ es) = omega (arith, length-hashed_bytes es)

length-offset_bytes : (es : List SubkeyListEntry) → length (offset_bytes es) ≡ length es * 4
unfolding offset_bytes
length-offset_bytes [] = refl
length-offset_bytes (e ∷ es) = omega (arith, length-offset_bytes es)

-- A known signature has two bytes.
two_bytes :
    (sig : Bytes)
    → (has_hashes sig ≡ true) ⊎ (has_offsets sig ≡ true)
    → (x : ℕ) × ((y : ℕ) × (sig ≡ x ∷ y ∷ []))
unfolding has_hashes has_offsets eq_bytes
two_bytes [] (inl h) = absurd (ground arith)
two_bytes [] (inr h) = absurd (ground arith)
two_bytes (x ∷ []) (inl h) = absurd (ground arith)
two_bytes (x ∷ []) (inr h) = absurd (ground arith)
two_bytes (x ∷ y ∷ []) h = (x, (y, refl))
two_bytes (x ∷ y ∷ z ∷ zs) (inl h) = absurd (ground arith)
two_bytes (x ∷ y ∷ z ∷ zs) (inr h) = absurd (ground arith)

list_header-bytes :
    (l : SubkeyList) (x y : ℕ)
    → l.signature ≡ x ∷ y ∷ []
    → list_header l ≡ x ∷ y ∷ bytes2 (length l.entries)
unfolding list_header
list_header-bytes l x y e = rw e refl

-- The parser on bytes that start with such a header.
parse-hashed :
    (l : SubkeyList) (b : Bytes)
    → slice b 0 2 ≡ l.signature
    → has_hashes l.signature ≡ true
    → u16_at b 2 ≡ length l.entries
    → 4 + length l.entries * 8 ≤ length b
    → read_hashed (length l.entries) 0 b ≡ l.entries
    → parse_subkey_list b ≡ ok l
unfolding parse_subkey_list
parse-hashed l b sig hashes count long read =
    rw (parse_subkey_list, sig, count, hashes, read) (ground arith)

parse-offsets :
    (l : SubkeyList) (b : Bytes)
    → slice b 0 2 ≡ l.signature
    → has_hashes l.signature ≡ false
    → has_offsets l.signature ≡ true
    → u16_at b 2 ≡ length l.entries
    → 4 + length l.entries * 4 ≤ length b
    → read_offsets (length l.entries) 0 b ≡ l.entries
    → parse_subkey_list b ≡ ok l
unfolding parse_subkey_list
parse-offsets l b sig no_hashes offsets count long read =
    rw (parse_subkey_list, sig, count, no_hashes, offsets, read) (ground arith)

-- `appendTo` succeeds on a list that fits, and `parseSubkeyList` reads the list back, whatever
-- follows its bytes in the cell.
pub parse-append_subkey_list :
    (l : SubkeyList) (dst rest : Bytes)
    → FitsList l
    → (b : Bytes) × (append_subkey_list l dst ≡ ok (dst ++ b))
      × (parse_subkey_list (b ++ rest) ≡ ok l)
parse-append_subkey_list l dst rest (count, inl (hashes, f)) =
    let (x, (y, sig)) = two_bytes l.signature (inl hashes) in
    let es = l.entries in
    let b = list_header l ++ hashed_bytes es in
    let head = x ∷ y ∷ bytes2 (length es) in
    let whole : b ++ rest ≡ head ++ (hashed_bytes es ++ rest) =
      append_assoc (list_header l) (hashed_bytes es) rest
      ∙ ap (λ (h : Bytes). h ++ (hashed_bytes es ++ rest)) (list_header-bytes l x y sig) in
    let read =
      parse-hashed l (head ++ (hashed_bytes es ++ rest)) (sym sig) hashes
        (join2-byte (length es) count)
        (omega (arith, length-append (hashed_bytes es) rest, length-hashed_bytes es))
        (read_hashed-hashed_bytes es 0 head rest refl f) in
    (b, unfold append_subkey_list in rw hashes refl, ap parse_subkey_list whole ∙ read)
parse-append_subkey_list l dst rest (count, inr (no_hashes, offsets, f)) =
    let (x, (y, sig)) = two_bytes l.signature (inr offsets) in
    let es = l.entries in
    let b = list_header l ++ offset_bytes es in
    let head = x ∷ y ∷ bytes2 (length es) in
    let whole : b ++ rest ≡ head ++ (offset_bytes es ++ rest) =
      append_assoc (list_header l) (offset_bytes es) rest
      ∙ ap (λ (h : Bytes). h ++ (offset_bytes es ++ rest)) (list_header-bytes l x y sig) in
    let read =
      parse-offsets l (head ++ (offset_bytes es ++ rest)) (sym sig) no_hashes offsets
        (join2-byte (length es) count)
        (omega (arith, length-append (offset_bytes es) rest, length-offset_bytes es))
        (read_offsets-offset_bytes es 0 head rest refl f) in
    (
      b,
      unfold append_subkey_list in rw (no_hashes, offsets) refl,
      ap parse_subkey_list whole ∙ read,
    )
