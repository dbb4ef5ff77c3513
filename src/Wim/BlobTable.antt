-- ===== src/Wim/BlobTable.antt =====
-- wim/blobtable.go: the table of the blobs that a WIM stores, its 50-byte entries, and the runs of
-- solid resources in it.
pub mod RoundTrip
pub mod Index
pub mod Solid
use gowim.Base.{
  ℕ, zero, suc, ◌+◌, ◌*◌, ◌/◌, ◌%◌, Bool, true, false, not, ◌&&◌, List, [], ◌∷◌, ◌++◌, length, ltb,
  ◌==◌, if◌then◌else◌, replicate, Result, ok, err, ◌>>=◌, drop, take, Option, none, some, get_elem?,
}
use gowim.Bytes.{Bytes, bytes2, bytes4, u16_at, u32_at, write_at, slice}
use gowim.Wim.Resource.{
  ResourceHeader, ResourceError, short_buffer, parse_resource_header, append_resource_header,
  is_metadata, is_solid, solid_resource_magic,
}

abbrev pub blob_descriptor_size : ℕ
blob_descriptor_size = 50

pub record BlobDescriptor : Type 0 where
  pub resource : ResourceHeader
  pub part_number : ℕ
  pub ref_count : ℕ
  pub hash : Bytes

unfoldable pub parse_blob_descriptor : Bytes → Result ResourceError BlobDescriptor
parse_blob_descriptor b =
    let read = do
      r ← parse_resource_header (slice b 0 24)
      ok (record {
        resource = r;
        part_number = u16_at b 24;
        ref_count = u32_at b 26;
        hash = slice b 30 20;
      })
    in if ltb (length b) blob_descriptor_size then err short_buffer else read

unfoldable pub tail_bytes : BlobDescriptor → Bytes
tail_bytes d =
    let t0 = replicate 26 0 in
    let t1 = write_at t0 0 (bytes2 d.part_number) in
    let t2 = write_at t1 2 (bytes4 d.ref_count) in write_at t2 6 d.hash

unfoldable pub append_blob_descriptor : BlobDescriptor → Bytes → Result ResourceError Bytes
unfolding tail_bytes
append_blob_descriptor d dst = do
  dst' ← append_resource_header d.resource dst
  ok (dst' ++ tail_bytes d)

-- The loop of `ParseBlobTable`, with the rounds left and the index `i`.
unfoldable pub parse_entries : ℕ → ℕ → Bytes → Result ResourceError (List BlobDescriptor)
parse_entries zero i b = ok []
parse_entries (suc n) i b = do
  d ← parse_blob_descriptor (drop (i * blob_descriptor_size) b)
  ds ← parse_entries n (i + 1) b
  ok (d ∷ ds)

pub data TableError : Type 0 where
  not_a_multiple : TableError
  bad_entry : ResourceError → TableError

abbrev pub wrap_entry {ℓ} : {A : Type ℓ} → Result ResourceError A → Result TableError A
wrap_entry (ok a) = ok a
wrap_entry (err e) = err (bad_entry e)

unfoldable pub parse_blob_table : Bytes → Result TableError (List BlobDescriptor)
parse_blob_table b =
    if not (length b % blob_descriptor_size == 0)
    then err not_a_multiple
    else wrap_entry (parse_entries (length b / blob_descriptor_size) 0 b)

unfoldable pub append_entries : List BlobDescriptor → Bytes → Result ResourceError Bytes
append_entries [] dst = ok dst
append_entries (d ∷ ds) dst = do dst' ← append_blob_descriptor d dst; append_entries ds dst'

unfoldable pub append_blob_table : List BlobDescriptor → Bytes → Result TableError Bytes
append_blob_table ds dst = wrap_entry (append_entries ds dst)

unfoldable pub encoded_len : List BlobDescriptor → ℕ
encoded_len ds = length ds * blob_descriptor_size

unfoldable pub metadata_resources : List BlobDescriptor → List ResourceHeader
metadata_resources [] = []
metadata_resources (e ∷ es) =
    let rest = metadata_resources es in if is_metadata e.resource then e.resource ∷ rest else rest
