-- ===== src/Wim/Header/RoundTrip.antt =====
-- Writing a header and reading it back.
use mathlib.Core.Path.{subst}
use gowim.Base.{ℕ, ◌≡◌, ◌<◌, ◌≤◌, ◌^◌, refl, arith, [], ◌++◌, length, ok, ◌⊎◌}
use gowim.Bytes.{Bytes, join2-byte, join4-byte, join7-byte, join8-byte, expand, expand_lem}
use gowim.Wim.Resource.{resource_bytes, parse_resource_header, append_resource_header}
use gowim.Wim.Resource.RoundTrip.{FitsResource}
use gowim.Wim.Header.{
  Header, header_bytes, parse_tables, check_file_size, parse_header, append_header, magic_wim,
  magic_pipable, version_default, version_solid, max_images,
}

-- What `ParseHeader` accepts, within the ranges of the Go types.
pub record IsValid (h : Header) : Type 0 where
  pub magic_known : (h.magic ≡ magic_wim) ⊎ (h.magic ≡ magic_pipable)
  pub version_known : (h.version ≡ version_default) ⊎ (h.version ≡ version_solid)
  pub flags_fit : h.flags < 2 ^ 32
  pub chunk_size_fits : h.chunk_size < 2 ^ 32
  pub guid_length : length h.guid ≡ 16
  pub part_positive : 0 < h.part_number
  pub part_in_total : h.part_number ≤ h.total_parts
  pub total_fits : h.total_parts < 2 ^ 16
  pub images_bounded : h.image_count ≤ max_images
  pub blob_fits : FitsResource h.blob_table
  pub xml_fits : FitsResource h.xml_data
  pub boot_fits : FitsResource h.boot_metadata
  pub boot_index_fits : h.boot_index < 2 ^ 32
  pub integrity_fits : FitsResource h.integrity_table

ruleset fields = (join2-byte, join4-byte, join7-byte, join8-byte)

module _ (h : Header) (g rest : Bytes) (v : IsValid h) where
  abbrev written : Bytes
  written =
      header_bytes (record h { guid = expand 16 g }) (resource_bytes h.blob_table)
        (resource_bytes h.xml_data) (resource_bytes h.boot_metadata)
        (resource_bytes h.integrity_table)
      ++ rest

  tables : parse_tables written ≡ ok (record h { guid = expand 16 g })
  unfolding parse_tables header_bytes resource_bytes parse_resource_header
  tables = ground (
    arith,
    join8-byte h.magic,
    join4-byte h.version,
    join4-byte h.flags,
    join4-byte h.chunk_size,
    join2-byte h.part_number,
    join2-byte h.total_parts,
    join4-byte h.image_count,
    join4-byte h.boot_index,
    join7-byte h.blob_table.size_in_wim,
    join8-byte h.blob_table.offset_in_wim,
    join8-byte h.blob_table.uncompressed_size,
    join7-byte h.xml_data.size_in_wim,
    join8-byte h.xml_data.offset_in_wim,
    join8-byte h.xml_data.uncompressed_size,
    join7-byte h.boot_metadata.size_in_wim,
    join8-byte h.boot_metadata.offset_in_wim,
    join8-byte h.boot_metadata.uncompressed_size,
    join7-byte h.integrity_table.size_in_wim,
    join8-byte h.integrity_table.offset_in_wim,
    join8-byte h.integrity_table.uncompressed_size,
  )

  written_parses :
      (file_size : ℕ)
      → parse_header written file_size ≡ check_file_size file_size (record h { guid = expand 16 g })
  unfolding parse_header header_bytes resource_bytes
  written_parses file_size = ground (
    arith,
    tables,
    join8-byte h.magic,
    join4-byte h.version,
    join2-byte h.part_number,
    join2-byte h.total_parts,
    join4-byte h.image_count,
    join4-byte 208,
  )

abbrev output : Header → Bytes
output h =
    header_bytes h (resource_bytes h.blob_table) (resource_bytes h.xml_data)
      (resource_bytes h.boot_metadata) (resource_bytes h.integrity_table)

abbrev ReadsBack : Header → Bytes → ℕ → Type 0
ReadsBack h rest file_size =
    (append_header h [] ≡ ok (output h))
    × (length (output h) ≡ 208)
    × (parse_header (output h ++ rest) file_size ≡ check_file_size file_size h)

ReadsBack-expand :
    (h : Header) (g rest : Bytes) (file_size : ℕ)
    → IsValid h
    → ReadsBack (record h { guid = expand 16 g }) rest file_size
unfolding append_header append_resource_header resource_bytes header_bytes
ReadsBack-expand h g rest file_size v = (ground arith, refl, written_parses h g rest v file_size)

-- A valid header is written as exactly 208 bytes, and `ParseHeader` reads it back from those
-- bytes, whatever follows them; only the sanity check against the file's size is left to pass.
pub parse-append_header :
    (h : Header) (rest : Bytes) (file_size : ℕ)
    → IsValid h
    → (b : Bytes) × (append_header h [] ≡ ok b)
      × (length b ≡ 208)
      × (parse_header (b ++ rest) file_size ≡ check_file_size file_size h)
parse-append_header h rest file_size v =
    let motive = λ (g : Bytes). ReadsBack (record h { guid = g }) rest file_size in
    let expanded = ReadsBack-expand h h.guid rest file_size v in
    let (p, q, r) = subst motive (expand_lem 16 h.guid v.guid_length) expanded in
    (output h, p, q, r)
