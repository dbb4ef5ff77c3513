-- ===== src/Wim/Security/RoundTrip.antt =====
-- Writing the security descriptors and reading them back.
use gowim.Base.{
  ℕ, ◌+◌, ◌-◌, ◌*◌, ◌%◌, ◌^◌, ◌<◌, ◌≤◌, ◌≡◌, refl, arith, List, [], ◌∷◌, ◌++◌, length, replicate,
  ok, All, length-append, length-replicate, append_assoc, ap, ◌∙◌, sym, take, take-append,
}
use gowim.Bytes.{Bytes, bytes4, bytes8, u32_at, slice, join4-byte, u64_at-append, drop-append_at}
use gowim.Wim.Security.{
  Descriptors, read_sizes, read_descriptors, total_length, parse_security_data, descriptors_size,
  encoded_len, size_fields, contents, security_bytes, append_security_data,
}

abbrev sizes_of : Descriptors → List ℕ
sizes_of [] = []
sizes_of (d ∷ ds) = length d ∷ sizes_of ds

-- Each descriptor is below 4 GiB.
abbrev pub SizesFit : Descriptors → Type 0
SizesFit = All (λ d. length d ≤ 0xffff_ffff)

length-size_fields : (ds : Descriptors) → length (size_fields ds) ≡ length ds * 8
unfolding size_fields
length-size_fields [] = omega arith
length-size_fields (d ∷ ds) = omega (arith, length-size_fields ds)

length-contents : (ds : Descriptors) → length (contents ds) ≡ descriptors_size ds
unfolding contents descriptors_size
length-contents [] = refl
length-contents (d ∷ ds) = omega (arith, length-append d (contents ds), length-contents ds)

read_sizes-fields :
    (ds : Descriptors) (i : ℕ) (pre rest : Bytes)
    → length pre ≡ 8 + i * 8
    → SizesFit ds
    → read_sizes (length ds) i (pre ++ (size_fields ds ++ rest)) ≡ ok (sizes_of ds)
unfolding read_sizes size_fields
read_sizes-fields [] i pre rest h f = refl
read_sizes-fields (d ∷ ds) i pre rest h f =
    let moved =
      read_sizes-fields ds (i + 1) (pre ++ bytes8 (length d)) rest
        (omega (arith, length-append pre (bytes8 (length d)))) f.1 in
    let same = append_assoc pre (bytes8 (length d)) (size_fields ds ++ rest) in
    ground (
      arith,
      u64_at-append pre (size_fields ds ++ rest) (8 + i * 8) (length d) (sym h) (omega arith),
      moved,
      same,
    )

slice-append :
    (pre d xs : Bytes) (off : ℕ) → length pre ≡ off → slice (pre ++ (d ++ xs)) off (length d) ≡ d
slice-append pre d xs off h =
    ap (take (length d)) (drop-append_at pre (d ++ xs) off (sym h)) ∙ take-append d xs

-- One round on a descriptor that is not empty and fits.
read_step :
    (size : ℕ) (sizes : List ℕ) (off total : ℕ) (b : Bytes) {ds : Descriptors}
    → 0 < size
    → off + size ≤ total
    → read_descriptors sizes (off + size) (off + size) total b ≡ ok ds
    → read_descriptors (size ∷ sizes) off off total b ≡ ok (slice b off size ∷ ds)
unfolding read_descriptors
read_step size sizes off total b pos fits later = ground arith

read_descriptors-contents :
    (ds : Descriptors) (off total : ℕ) (pre rest : Bytes)
    → length pre ≡ off
    → off + descriptors_size ds ≤ total
    → read_descriptors (sizes_of ds) off off total (pre ++ (contents ds ++ rest)) ≡ ok ds
unfolding read_descriptors contents descriptors_size
read_descriptors-contents [] off total pre rest h fits = refl
read_descriptors-contents ([] ∷ ds) off total pre rest h fits =
    rw (read_descriptors-contents ds off total pre rest h (omega arith))
read_descriptors-contents ((x ∷ d) ∷ ds) off total pre rest h fits =
    let moved =
      read_descriptors-contents ds (off + length (x ∷ d)) total (pre ++ (x ∷ d)) rest
        (omega (arith, length-append pre (x ∷ d))) (omega arith) in
    let same = append_assoc pre (x ∷ d) (contents ds ++ rest) in
    let piece = slice-append pre (x ∷ d) (contents ds ++ rest) off h in
    let regroup = append_assoc (x ∷ d) (contents ds) rest in
    rw regroup (
      read_step (length (x ∷ d)) (sizes_of ds) off total (pre ++ ((x ∷ d) ++ (contents ds ++ rest)))
        (omega arith) (omega arith) (rw same at moved)
      ∙ ap (λ s. ok (s ∷ ds)) piece)

-- The 8-byte head, and the whole before padding.
abbrev body_size : Descriptors → ℕ
body_size ds = 8 + length ds * 8 + descriptors_size ds

abbrev head : Descriptors → Bytes
head ds = bytes4 (encoded_len ds) ++ bytes4 (length ds)

encoded_len_bounds :
    (ds : Descriptors)
    → body_size ds + 7 < 2 ^ 64
    → (body_size ds ≤ encoded_len ds)
      × (encoded_len ds ≤ body_size ds + 7)
      × (encoded_len ds % 8 ≡ 0)
unfolding encoded_len
encoded_len_bounds [] h = ground arith
encoded_len_bounds (d ∷ ds) h = ground arith

total_length-encoded_len :
    (ds : Descriptors) → body_size ds + 7 < 2 ^ 32 → total_length (encoded_len ds) ≡ encoded_len ds
unfolding total_length
total_length-encoded_len ds h = ground (arith, encoded_len_bounds ds)

-- `ParseSecurityData` on a buffer whose reads are known.
parse_steps :
    (b : Bytes) (total num : ℕ) (sizes : List ℕ) (ds : Descriptors)
    → 8 ≤ length b
    → total_length (u32_at b 0) ≡ total
    → u32_at b 4 ≡ num
    → num ≤ 0x8000_0000
    → total ≤ length b
    → 8 + num * 8 ≤ total
    → read_sizes num 0 b ≡ ok sizes
    → read_descriptors sizes (8 + num * 8) (8 + num * 8) total b ≡ ok ds
    → length ds ≡ num
    → parse_security_data b ≡ ok (ds, total)
unfolding parse_security_data
parse_steps b total num sizes [] h8 ht hn hm hl hb hs hd hz = ground arith
parse_steps b total num sizes (d ∷ ds) h8 ht hn hm hl hb hs hd hz = ground arith

abbrev laid_out : Descriptors → Bytes → Bytes
laid_out ds tail = head ds ++ (size_fields ds ++ (contents ds ++ tail))

length-laid_out :
    (ds : Descriptors) (tail : Bytes) → length (laid_out ds tail) ≡ body_size ds + length tail
length-laid_out ds tail = omega (
  arith,
  length-append (size_fields ds) (contents ds ++ tail),
  length-append (contents ds) tail,
  length-size_fields ds,
  length-contents ds,
)

parse_layout :
    (ds : Descriptors) (tail : Bytes)
    → SizesFit ds
    → length ds ≤ 0x8000_0000
    → body_size ds + 7 < 2 ^ 32
    → encoded_len ds ≤ body_size ds + length tail
    → parse_security_data (laid_out ds tail) ≡ ok (ds, encoded_len ds)
parse_layout ds tail f count fits long =
    let bounds = encoded_len_bounds ds (omega arith) in
    let whole = length-laid_out ds tail in
    let stored = join4-byte (encoded_len ds) (omega arith) in
    let descriptors =
      read_descriptors-contents ds (8 + length ds * 8) (encoded_len ds) (head ds ++ size_fields ds)
        tail (omega (arith, length-size_fields ds)) (omega arith) in
    parse_steps (laid_out ds tail) (encoded_len ds) (length ds) (sizes_of ds) ds (omega arith)
      (ap total_length stored ∙ total_length-encoded_len ds fits)
      (join4-byte (length ds) (omega arith)) count (omega arith) (omega arith)
      (read_sizes-fields ds 0 (head ds) (contents ds ++ tail) refl f) descriptors refl

-- The zeros that `AppendTo` adds.
abbrev padding : Descriptors → Bytes
padding ds = replicate (encoded_len ds - length (head ds ++ (size_fields ds ++ contents ds))) 0

length-padding : (ds : Descriptors) → length (padding ds) ≡ encoded_len ds - body_size ds
length-padding ds =
    length-replicate _ 0
    ∙ omega (
      arith,
      length-append (size_fields ds) (contents ds),
      length-size_fields ds,
      length-contents ds,
    )

-- The bytes of the table in the layout that the parser walks.
security_bytes-laid_out : (ds : Descriptors) → security_bytes ds ≡ laid_out ds (padding ds)
unfolding security_bytes
security_bytes-laid_out ds = simp append_assoc

laid_out-append :
    (ds : Descriptors) (pad rest : Bytes) → laid_out ds pad ++ rest ≡ laid_out ds (pad ++ rest)
laid_out-append ds pad rest = simp append_assoc

-- A table of at most 2^31 descriptors, each below 4 GiB, whose header, sizes of 8 bytes each and
-- descriptors take together less than 2^32 - 7 bytes, so that also their padding to a multiple of 8
-- fits the uint32 of the total, is appended to `dst` as exactly `EncodedLen` bytes, and `ParseSecurityData` reads from those bytes, whatever
-- follows them, the same descriptors and that length.
pub parse-append_security_data :
    (ds : Descriptors) (dst rest : Bytes)
    → SizesFit ds
    → length ds ≤ 0x8000_0000
    → 8 + length ds * 8 + descriptors_size ds + 7 < 2 ^ 32
    → (b : Bytes) × (append_security_data ds dst ≡ dst ++ b)
      × (length b ≡ encoded_len ds)
      × (parse_security_data (b ++ rest) ≡ ok (ds, encoded_len ds))
unfolding append_security_data
parse-append_security_data ds dst rest f count fits =
    let bounds = encoded_len_bounds ds (omega arith) in
    let padded = length-padding ds in
    let layout = security_bytes-laid_out ds in
    let moved = ap (λ (b : Bytes). b ++ rest) layout ∙ laid_out-append ds (padding ds) rest in
    let long = length-append (padding ds) rest in
    (
      security_bytes ds,
      refl,
      ap length layout ∙ omega (arith, length-laid_out ds (padding ds)),
      ap parse_security_data moved
          ∙ parse_layout ds (padding ds ++ rest) f count fits (omega arith),
    )
