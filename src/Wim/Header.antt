-- ===== src/Wim/Header.antt =====
-- wim/header.go: the 208-byte header of a WIM file, and wim/chunk.go's `CompressionType`.
pub mod Validate
pub mod RoundTrip
use gowim.Base.{
  ℕ, zero, suc, ◌+◌, ◌^◌, ◌-◌, Bool, true, false, not, ◌&&◌, ◌||◌, List, [], ◌∷◌, ◌++◌, length, ltb,
  ◌==◌, if◌then◌else◌, replicate, Option, none, some, Result, ok, err, drop, take, ◌>>=◌,
}
use gowim.Bytes.{Bytes, bytes2, bytes4, bytes8, u16_at, u32_at, u64_at, write_at, slice}
use gowim.Wim.Resource.{
  ResourceHeader, ResourceError, parse_resource_header, append_resource_header, has_flag,
}

abbrev pub header_size : ℕ
header_size = 208

abbrev pub version_default : ℕ
version_default = 0x10d00

abbrev pub version_solid : ℕ
version_solid = 0x0e00

-- "MSWIM\0\0\0"
abbrev pub magic_wim : ℕ
magic_wim = 0x4d4957534d

-- "WLPWM\0\0\0"
abbrev pub magic_pipable : ℕ
magic_pipable = 0x4d57504c57

abbrev pub max_images : ℕ
max_images = 65535

pub record Header : Type 0 where
  pub magic : ℕ
  pub version : ℕ
  pub flags : ℕ
  pub chunk_size : ℕ
  pub guid : Bytes
  pub part_number : ℕ
  pub total_parts : ℕ
  pub image_count : ℕ
  pub blob_table : ResourceHeader
  pub xml_data : ResourceHeader
  pub boot_metadata : ResourceHeader
  pub boot_index : ℕ
  pub integrity_table : ResourceHeader

-- The sentinel errors; the three causes of `ErrInvalidHeader` are told apart.
pub data HeaderError : Type 0 where
  short_header not_wim wrong_header_size unknown_version bad_part_number : HeaderError
  bad_image_count table_too_large : HeaderError
  bad_resource : ResourceError → HeaderError

unfoldable pub is_pipable : Header → Bool
is_pipable h = h.magic == magic_pipable

-- `wrapErr` around a call on a resource header.
abbrev pub wrap {ℓ} : {A : Type ℓ} → Result ResourceError A → Result HeaderError A
wrap (ok a) = ok a
wrap (err e) = err (bad_resource e)

unfoldable pub tables_fit : Header → ℕ → Bool
tables_fit h file_size = not (
    ltb file_size h.blob_table.uncompressed_size
    || ltb file_size h.xml_data.uncompressed_size
    || ltb file_size h.integrity_table.uncompressed_size)

-- The fields as they stand in the buffer, after the four resource headers are read.
abbrev pub decode_with :
    Bytes → ResourceHeader → ResourceHeader → ResourceHeader → ResourceHeader → Header
decode_with b blob xml boot integrity = record {
  magic = u64_at b 0x00;
  version = u32_at b 0x0c;
  flags = u32_at b 0x10;
  chunk_size = u32_at b 0x14;
  guid = slice b 0x18 16;
  part_number = u16_at b 0x28;
  total_parts = u16_at b 0x2a;
  image_count = u32_at b 0x2c;
  blob_table = blob;
  xml_data = xml;
  boot_metadata = boot;
  boot_index = u32_at b 0x78;
  integrity_table = integrity;
}

unfoldable pub parse_tables : Bytes → Result HeaderError Header
parse_tables b = do
  blob ← wrap (parse_resource_header (drop 0x30 b))
  xml ← wrap (parse_resource_header (drop 0x48 b))
  boot ← wrap (parse_resource_header (drop 0x60 b))
  integrity ← wrap (parse_resource_header (drop 0x7c b))
  ok (decode_with b blob xml boot integrity)

unfoldable pub check_file_size : ℕ → Header → Result HeaderError Header
unfolding tables_fit
check_file_size file_size h =
    if ltb 0 file_size && not (tables_fit h file_size) then err table_too_large else ok h

unfoldable pub parse_header : Bytes → ℕ → Result HeaderError Header
unfolding check_file_size
parse_header b file_size =
    if ltb (length b) header_size
    then err short_header
    else if not (u64_at b 0x00 == magic_wim) && not (u64_at b 0x00 == magic_pipable)
    then err not_wim
    else if not (u32_at b 0x08 == header_size)
    then err wrong_header_size
    else if not (u32_at b 0x0c == version_default) && not (u32_at b 0x0c == version_solid)
    then err unknown_version
    else if u16_at b 0x2a == 0 || u16_at b 0x28 == 0 || ltb (u16_at b 0x2a) (u16_at b 0x28)
    then err bad_part_number
    else if ltb max_images (u32_at b 0x2c)
    then err bad_image_count
    else parse_tables b >>= check_file_size file_size

-- The array `b` of `AppendTo`, given the four resource headers in bytes.
unfoldable pub header_bytes : Header → Bytes → Bytes → Bytes → Bytes → Bytes
header_bytes h blob xml boot integrity =
    let b0 = replicate header_size 0 in
    let b1 = write_at b0 0x00 (bytes8 h.magic) in
    let b2 = write_at b1 0x08 (bytes4 header_size) in
    let b3 = write_at b2 0x0c (bytes4 h.version) in
    let b4 = write_at b3 0x10 (bytes4 h.flags) in
    let b5 = write_at b4 0x14 (bytes4 h.chunk_size) in
    let b6 = write_at b5 0x18 h.guid in
    let b7 = write_at b6 0x28 (bytes2 h.part_number) in
    let b8 = write_at b7 0x2a (bytes2 h.total_parts) in
    let b9 = write_at b8 0x2c (bytes4 h.image_count) in
    let b10 = write_at b9 0x30 blob in
    let b11 = write_at b10 0x48 xml in
    let b12 = write_at b11 0x60 boot in
    let b13 = write_at b12 0x7c integrity in write_at b13 0x78 (bytes4 h.boot_index)

unfoldable pub append_header : Header → Bytes → Result HeaderError Bytes
unfolding header_bytes
append_header h dst = do
  blob ← wrap (append_resource_header h.blob_table [])
  xml ← wrap (append_resource_header h.xml_data [])
  boot ← wrap (append_resource_header h.boot_metadata [])
  integrity ← wrap (append_resource_header h.integrity_table [])
  ok (dst ++ header_bytes h blob xml boot integrity)

abbrev no_resource : ResourceHeader
no_resource = record { size_in_wim = 0; flags = 0; offset_in_wim = 0; uncompressed_size = 0 }

unfoldable pub new_header : Header
new_header = record {
  magic = magic_wim;
  version = version_default;
  flags = 0;
  chunk_size = 0;
  guid = replicate 16 0;
  part_number = 1;
  total_parts = 1;
  image_count = 0;
  blob_table = no_resource;
  xml_data = no_resource;
  boot_metadata = no_resource;
  boot_index = 0;
  integrity_table = no_resource;
}

pub data Compression : Type 0 where
  no_compression lzx xpress lzms : Compression

-- `none` is the error "no recognized compression-type flag".
unfoldable pub compression_type : Header → Option Compression
unfolding has_flag
compression_type h =
    if not (has_flag h.flags 0x2)
    then some no_compression
    else if has_flag h.flags 0x40000
    then some lzx
    else if has_flag h.flags 0x220000
    then some xpress
    else if has_flag h.flags 0x80000
    then some lzms
    else none
