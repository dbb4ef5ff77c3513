-- ===== src/Wim/Header/Validate.antt =====
-- wim/header.go, `ParseHeader`: what a header that it returns is known to meet.
use gowim.Base.{
  ◌∙◌, sym, ◌>>=◌, true, ℕ, ◌≡◌, ◌<◌, ◌≤◌, refl, ap, arith, length, Result, ok, err, drop, ◌⊎◌, All,
  length-take, length-drop, >>=-eq-ok,
}
use gowim.Bytes.{
  slice, u16_at, u32_at, u64_at, Bytes, u16_at-lt, u32_at-lt, u64_at-lt, join7-lt, All-drop,
  byte_at-IsByte, IsByte,
}
use gowim.Wim.Resource.{ResourceError, ResourceHeader, parse_resource_header}
use gowim.Wim.Resource.RoundTrip.{FitsResource}
use gowim.Wim.Header.{
  HeaderError, decode_with, wrap, tables_fit, Header, parse_tables, check_file_size, parse_header,
  magic_wim, magic_pipable, version_default, version_solid, max_images,
}
use gowim.Wim.Header.RoundTrip.{IsValid}

pub parse_resource_header-FitsResource :
    (b : Bytes) {r : ResourceHeader}
    → All IsByte b
    → parse_resource_header b ≡ ok r
    → FitsResource r
unfolding parse_resource_header
parse_resource_header-FitsResource b h e = ground (
  arith,
  byte_at-IsByte b 7 h,
  u64_at-lt b 8 h,
  u64_at-lt b 16 h,
  join7-lt _ _ _ _ _ _ _ (byte_at-IsByte b 0 h) (byte_at-IsByte b 1 h) (byte_at-IsByte b 2 h)
      (byte_at-IsByte b 3 h) (byte_at-IsByte b 4 h) (byte_at-IsByte b 5 h) (byte_at-IsByte b 6 h),
)

-- What `parse_tables` returns carries the fields at their offsets.
record Decoded (b : Bytes) (h : Header) : Type 0 where
  magic_is : h.magic ≡ u64_at b 0x00
  version_is : h.version ≡ u32_at b 0x0c
  flags_is : h.flags ≡ u32_at b 0x10
  chunk_is : h.chunk_size ≡ u32_at b 0x14
  guid_is : h.guid ≡ slice b 0x18 16
  part_is : h.part_number ≡ u16_at b 0x28
  total_is : h.total_parts ≡ u16_at b 0x2a
  images_is : h.image_count ≡ u32_at b 0x2c
  boot_index_is : h.boot_index ≡ u32_at b 0x78
  blob_is : parse_resource_header (drop 0x30 b) ≡ ok h.blob_table
  xml_is : parse_resource_header (drop 0x48 b) ≡ ok h.xml_data
  boot_is : parse_resource_header (drop 0x60 b) ≡ ok h.boot_metadata
  integrity_is : parse_resource_header (drop 0x7c b) ≡ ok h.integrity_table

-- `parse_tables` over the results of the four reads.
abbrev Read : Type 0
Read = Result ResourceError ResourceHeader

abbrev combine : Bytes → Read → Read → Read → Read → Result HeaderError Header
combine b r s t u = do
  blob ← wrap r
  xml ← wrap s
  boot ← wrap t
  integrity ← wrap u
  ok (decode_with b blob xml boot integrity)

combine-ok :
    (b : Bytes) (r s t u : Read) {h : Header}
    → combine b r s t u ≡ ok h
    → (x y z w : ResourceHeader) × (r ≡ ok x)
      × (s ≡ ok y)
      × (t ≡ ok z)
      × (u ≡ ok w)
      × (h ≡ decode_with b x y z w)
combine-ok b (ok x) (ok y) (ok z) (ok w) e = (x, y, z, w, refl, refl, refl, refl, cc)
combine-ok b (ok x) (ok y) (ok z) (err w) e = cc
combine-ok b (ok x) (ok y) (err z) u e = cc
combine-ok b (ok x) (err y) t u e = cc
combine-ok b (err x) s t u e = cc

parse_tables-Decoded : (b : Bytes) {h : Header} → parse_tables b ≡ ok h → Decoded b h
unfolding parse_tables
parse_tables-Decoded b e =
    let read = λ (o : ℕ). parse_resource_header (drop o b) in
    let (x, y, z, w, p, q, r, s, d) =
      combine-ok b (read 0x30) (read 0x48) (read 0x60) (read 0x7c) e in
    record {
      magic_is = ap (λ k. k.magic) d;
      version_is = ap (λ k. k.version) d;
      flags_is = ap (λ k. k.flags) d;
      chunk_is = ap (λ k. k.chunk_size) d;
      guid_is = ap (λ k. k.guid) d;
      part_is = ap (λ k. k.part_number) d;
      total_is = ap (λ k. k.total_parts) d;
      images_is = ap (λ k. k.image_count) d;
      boot_index_is = ap (λ k. k.boot_index) d;
      blob_is = p ∙ ap (λ k. ok k.blob_table) (sym d);
      xml_is = q ∙ ap (λ k. ok k.xml_data) (sym d);
      boot_is = r ∙ ap (λ k. ok k.boot_metadata) (sym d);
      integrity_is = s ∙ ap (λ k. ok k.integrity_table) (sym d);
    }

length-slice : (b : Bytes) → 208 ≤ length b → length (slice b 0x18 16) ≡ 16
length-slice b h = omega (arith, length-take 16 (drop 0x18 b), length-drop 0x18 b)

-- The tests that stand before the tables are read.
record Passes (b : Bytes) : Type 0 where
  long : 208 ≤ length b
  magic_ok : (u64_at b 0x00 ≡ magic_wim) ⊎ (u64_at b 0x00 ≡ magic_pipable)
  version_ok : (u32_at b 0x0c ≡ version_default) ⊎ (u32_at b 0x0c ≡ version_solid)
  part_ok : (0 < u16_at b 0x28) × (u16_at b 0x28 ≤ u16_at b 0x2a)
  images_ok : u32_at b 0x2c ≤ max_images

parse_header-Passes :
    (b : Bytes) (file_size : ℕ) {h : Header}
    → parse_header b file_size ≡ ok h
    → Passes b × (parse_tables b >>= check_file_size file_size) ≡ ok h
unfolding parse_header
parse_header-Passes b file_size e = ground arith

check_file_size-ok :
    (file_size : ℕ) (h : Header) {k : Header}
    → check_file_size file_size h ≡ ok k
    → (h ≡ k) × ((file_size ≡ 0) ⊎ (tables_fit k file_size ≡ true))
unfolding check_file_size
check_file_size-ok file_size h e = ground arith

Decoded-IsValid : (b : Bytes) (h : Header) → All IsByte b → Passes b → Decoded b h → IsValid h
Decoded-IsValid b h w p d = record {
  magic_known = rw d.magic_is p.magic_ok;
  version_known = rw d.version_is p.version_ok;
  flags_fit = rw d.flags_is (u32_at-lt b 0x10 w);
  chunk_size_fits = rw d.chunk_is (u32_at-lt b 0x14 w);
  guid_length = rw d.guid_is (length-slice b p.long);
  part_positive = rw d.part_is p.part_ok.0;
  part_in_total = omega (arith, d.part_is, d.total_is, p.part_ok.1);
  total_fits = rw d.total_is (u16_at-lt b 0x2a w);
  images_bounded = rw d.images_is p.images_ok;
  blob_fits = parse_resource_header-FitsResource _ (All-drop 0x30 b w) d.blob_is;
  xml_fits = parse_resource_header-FitsResource _ (All-drop 0x48 b w) d.xml_is;
  boot_fits = parse_resource_header-FitsResource _ (All-drop 0x60 b w) d.boot_is;
  boot_index_fits = rw d.boot_index_is (u32_at-lt b 0x78 w);
  integrity_fits = parse_resource_header-FitsResource _ (All-drop 0x7c b w) d.integrity_is;
}

-- `ParseHeader` returns, of a buffer of bytes, only headers that are valid, whose tables do not claim to be larger than
-- the file when its size is given.
pub parse_header-IsValid :
    (b : Bytes) (file_size : ℕ) {h : Header}
    → All IsByte b
    → parse_header b file_size ≡ ok h
    → IsValid h × ((file_size ≡ 0) ⊎ (tables_fit h file_size ≡ true))
parse_header-IsValid b file_size {h} w e =
    let (p, e') = parse_header-Passes b file_size e in
    let (k, read, checked) = >>=-eq-ok (parse_tables b) (check_file_size file_size) e' in
    let (same, fits) = check_file_size-ok file_size k checked in
    (rw same at (Decoded-IsValid b k w p (parse_tables-Decoded b read)), fits)
