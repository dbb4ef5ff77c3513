-- ===== src/Wim/BlobTable/RoundTrip.antt =====
-- Writing a blob table and reading it back.
use mathlib.Core.Path.{subst}
use gowim.Base.{
  ℕ, ◌+◌, ◌*◌, List, [], ◌∷◌, ◌++◌, length, replicate, ok, All, ◌≡◌, ◌<◌, ◌^◌, arith, refl, ◌∙◌, ap,
  length-append, append_assoc, append-nil, sym,
}
use gowim.Bytes.{
  Bytes, expand, expand_lem, join2-byte, join4-byte, join7-byte, join8-byte, drop-append_at,
  length-write_at,
}
use gowim.Wim.Resource.{resource_bytes, parse_resource_header, append_resource_header}
use gowim.Wim.Resource.RoundTrip.{FitsResource}
use gowim.Wim.BlobTable.{
  BlobDescriptor, parse_blob_descriptor, tail_bytes, append_blob_descriptor, parse_entries,
  parse_blob_table, append_entries, append_blob_table, encoded_len,
}

pub record FitsBlob (d : BlobDescriptor) : Type 0 where
  pub resource_fits : FitsResource d.resource
  pub part_fits : d.part_number < 2 ^ 16
  pub count_fits : d.ref_count < 2 ^ 32
  pub hash_length : length d.hash ≡ 20

abbrev entry_bytes : BlobDescriptor → Bytes
entry_bytes d = resource_bytes d.resource ++ tail_bytes d

parse-expand :
    (d : BlobDescriptor) (h rest : Bytes)
    → FitsBlob d
    → parse_blob_descriptor (entry_bytes (record d { hash = expand 20 h }) ++ rest)
      ≡ ok (record d { hash = expand 20 h })
unfolding parse_blob_descriptor tail_bytes resource_bytes parse_resource_header
parse-expand d h rest f = ground (
  arith,
  join2-byte d.part_number,
  join4-byte d.ref_count,
  join7-byte d.resource.size_in_wim,
  join8-byte d.resource.offset_in_wim,
  join8-byte d.resource.uncompressed_size,
)

-- An entry is read back from its 50 bytes, whatever follows them.
pub parse-entry_bytes :
    (d : BlobDescriptor) (rest : Bytes)
    → FitsBlob d
    → parse_blob_descriptor (entry_bytes d ++ rest) ≡ ok d
parse-entry_bytes d rest f =
    let motive = λ (g : Bytes).
      parse_blob_descriptor (entry_bytes (record d { hash = g }) ++ rest)
      ≡ ok (record d { hash = g }) in
    subst motive (expand_lem 20 d.hash f.hash_length) (parse-expand d d.hash rest f)

length-entry_bytes : (d : BlobDescriptor) → length (entry_bytes d) ≡ 50
unfolding tail_bytes resource_bytes
length-entry_bytes d = omega (arith, length-write_at (replicate 20 0) 0 d.hash)

append-entry_bytes :
    (d : BlobDescriptor) (dst : Bytes)
    → FitsBlob d
    → append_blob_descriptor d dst ≡ ok (dst ++ entry_bytes d)
unfolding append_blob_descriptor append_resource_header
append-entry_bytes d dst f =
    ground (arith, append_assoc dst (resource_bytes d.resource) (tail_bytes d))

abbrev encoded : List BlobDescriptor → Bytes
encoded [] = []
encoded (d ∷ ds) = entry_bytes d ++ encoded ds

length-encoded : (ds : List BlobDescriptor) → length (encoded ds) ≡ length ds * 50
length-encoded [] = omega arith
length-encoded (d ∷ ds) =
    omega
      (arith, length-append (entry_bytes d) (encoded ds), length-entry_bytes d, length-encoded ds)

parse_entries-encoded :
    (ds : List BlobDescriptor) (i : ℕ) (pre : Bytes)
    → length pre ≡ i * 50
    → All FitsBlob ds
    → parse_entries (length ds) i (pre ++ encoded ds) ≡ ok ds
unfolding parse_entries
parse_entries-encoded [] i pre h f = refl
parse_entries-encoded (d ∷ ds) i pre h f =
    let tail =
      parse_entries-encoded ds (i + 1) (pre ++ entry_bytes d)
        (omega (arith, length-append pre (entry_bytes d), length-entry_bytes d)) f.1 in
    rw
      (drop-append_at pre (encoded (d ∷ ds)) (i * 50) (sym h), parse-entry_bytes d (encoded ds) f.0)
      (rw (rw append_assoc at tail))

append_entries-encoded :
    (ds : List BlobDescriptor) (dst : Bytes)
    → All FitsBlob ds
    → append_entries ds dst ≡ ok (dst ++ encoded ds)
unfolding append_entries
append_entries-encoded [] dst f = ap ok (sym (append-nil dst))
append_entries-encoded (d ∷ ds) dst f = rw (append-entry_bytes d dst f.0) (
    append_entries-encoded ds (dst ++ entry_bytes d) f.1
    ∙ ap ok (append_assoc dst (entry_bytes d) (encoded ds)))

-- A table of entries in range is written behind `dst` as 50 bytes for each, and `ParseBlobTable`
-- reads the same entries back from those bytes.
pub parse-append_blob_table :
    (ds : List BlobDescriptor) (dst : Bytes)
    → All FitsBlob ds
    → (b : Bytes) × (append_blob_table ds dst ≡ ok (dst ++ b))
      × (length b ≡ encoded_len ds)
      × (parse_blob_table b ≡ ok ds)
unfolding append_blob_table parse_blob_table encoded_len
parse-append_blob_table ds dst f = (
  encoded ds,
  rw (append_entries-encoded ds dst f),
  length-encoded ds,
  ground (arith, length-encoded ds, parse_entries-encoded ds 0 [] refl f),
)
