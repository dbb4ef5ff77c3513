-- ===== src/Tests/Formats.antt =====
-- The on-disk structures of the wim directory at concrete inputs.
use gowim.Base.{
  ℕ, Bool, ltb, ◌&&◌, ◌≡◌, ◌⊎◌, refl, arith, inl, inr, List, [], ◌∷◌, ◌++◌, length, some, ok,
  replicate, All, true,
}
use gowim.Bytes.{eq_bytes, Bytes, IsByte, join2, join4, join7, join8}
use gowim.Text.{
  utf8_to_string, runes_from, decode_rune, within, continues, second_fits, string_to_utf16le,
  utf16le_to_string, utf16le_to_string-string_to_utf16le,
}
use gowim.Wim.Resource.{ResourceHeader, parse_resource_header, resource_bytes}
use gowim.Wim.Resource.RoundTrip.{FitsResource}
use gowim.Wim.Header.{
  Header, new_header, append_header, parse_header, parse_tables, check_file_size, tables_fit,
}
use gowim.Wim.Header.Validate.{parse_header-IsValid}
use gowim.Wim.Header.RoundTrip.{IsValid, parse-append_header}
use gowim.Wim.Chunk.{num_chunks_for}
use gowim.Wim.Chunk.Sizes.{total_size, total_size-num_chunks_for}
use gowim.Wim.BlobTable.{BlobDescriptor, append_blob_table, parse_blob_table, encoded_len}
use gowim.Wim.BlobTable.RoundTrip.{FitsBlob, parse-append_blob_table}
use gowim.Wim.BlobTable.Index.{
  ensure_index, reset, extend, lookup, answer_at, found, BlobTable, WellIndexed, shrunk, by_hash,
  by_hash_linear_scan, answer_of, by_hash-scan,
}
use gowim.Wim.BlobTable.Solid.{
  solid_resources, solid_specs, solid_blobs, all_specs, all_blobs, solid_resources_collect,
}
use gowim.Wim.Security
use gowim.Wim.Security.{append_security_data, parse_security_data}
use gowim.Wim.Security.RoundTrip.{parse-append_security_data}

abbrev table_at : ℕ → ResourceHeader
table_at offset = record {
  size_in_wim = 100;
  flags = 2;
  offset_in_wim = offset;
  uncompressed_size = 100;
}

table_at-Fits : FitsResource (table_at 208)
table_at-Fits = record {
  size_fits = omega arith;
  flags_fit = omega arith;
  offset_fits = omega arith;
  uncompressed_fits = omega arith;
}

abbrev sample_header : Header
sample_header = record {
  magic = 0x4d4957534d;
  version = 0x10d00;
  flags = 0x20002;
  chunk_size = 32768;
  guid = replicate 16 7;
  part_number = 1;
  total_parts = 2;
  image_count = 3;
  blob_table = table_at 208;
  xml_data = table_at 208;
  boot_metadata = table_at 208;
  boot_index = 1;
  integrity_table = table_at 208;
}

sample_header-IsValid : IsValid sample_header
sample_header-IsValid = record {
  magic_known = inl refl;
  version_known = inl refl;
  flags_fit = omega arith;
  chunk_size_fits = omega arith;
  guid_length = refl;
  part_positive = omega arith;
  part_in_total = omega arith;
  total_fits = omega arith;
  images_bounded = omega arith;
  blob_fits = table_at-Fits;
  xml_fits = table_at-Fits;
  boot_fits = table_at-Fits;
  boot_index_fits = omega arith;
  integrity_fits = table_at-Fits;
}

parse-append_header_example :
    (b : Bytes) × (append_header sample_header [] ≡ ok b)
    × (length b ≡ 208)
    × (parse_header (b ++ (1 ∷ 2 ∷ [])) 4096 ≡ check_file_size 4096 sample_header)
parse-append_header_example =
    parse-append_header sample_header (1 ∷ 2 ∷ []) 4096 sample_header-IsValid

abbrev are_bytes : Bytes → Bool
are_bytes [] = true
are_bytes (x ∷ b) = ltb x 256 && are_bytes b

are_bytes-IsByte : (b : Bytes) → are_bytes b ≡ true → All IsByte b
are_bytes-IsByte [] h = tt
are_bytes-IsByte (x ∷ b) h = (ground arith, are_bytes-IsByte b (ground arith))

-- The bytes of a new header.
abbrev new_bytes : Bytes
new_bytes =
    0x4d
    ∷ 0x53
    ∷ 0x57
    ∷ 0x49
    ∷ 0x4d
    ∷ 0
    ∷ 0
    ∷ 0
    ∷ 208
    ∷ 0
    ∷ 0
    ∷ 0
    ∷ 0
    ∷ 13
    ∷ 1
    ∷ 0
    ∷ (replicate 24 0 ++ (1 ∷ 0 ∷ 1 ∷ 0 ∷ replicate 164 0))

new_bytes-IsByte : All IsByte new_bytes
new_bytes-IsByte = are_bytes-IsByte new_bytes refl

parse_new : parse_header new_bytes 4096 ≡ ok new_header
unfolding parse_header parse_tables parse_resource_header check_file_size tables_fit new_header
    join2 join4 join7 join8
parse_new = refl

parse_header-IsValid_example :
    IsValid new_header × ((◌≡◌ {A = ℕ} 4096 0) ⊎ (tables_fit new_header 4096 ≡ true))
parse_header-IsValid_example = parse_header-IsValid new_bytes 4096 new_bytes-IsByte parse_new

num_chunks : num_chunks_for 100_000 32_768 ≡ some 4
unfolding num_chunks_for
num_chunks = refl

total_size-num_chunks_for_example : total_size 4 4 100_000 32_768 ≡ 100_000
total_size-num_chunks_for_example =
    total_size-num_chunks_for 100_000 32_768 4 (omega arith) (omega arith) num_chunks

abbrev blob : ℕ → ℕ → ℕ → BlobDescriptor
blob flags size seed = record {
  resource = record {
    size_in_wim = 100;
    flags = flags;
    offset_in_wim = 208;
    uncompressed_size = size;
  };
  part_number = 1;
  ref_count = 1;
  hash = replicate 20 seed;
}

-- A plain blob, a solid resource, its two blobs, and a blob with the hash of the first.
abbrev blobs : List BlobDescriptor
blobs = blob 0 100 1 ∷ blob 16 0x1_0000_0000 2 ∷ blob 16 70 3 ∷ blob 16 30 4 ∷ blob 0 60 1 ∷ []

blob-Fits : FitsBlob (blob 0 100 1)
blob-Fits = record {
  resource_fits = record {
    size_fits = omega arith;
    flags_fit = omega arith;
    offset_fits = omega arith;
    uncompressed_fits = omega arith;
  };
  part_fits = omega arith;
  count_fits = omega arith;
  hash_length = refl;
}

parse-append_blob_table_example :
    (b : Bytes) × (append_blob_table (blob 0 100 1 ∷ blob 0 100 1 ∷ []) (5 ∷ [])
      ≡ ok ((5 ∷ []) ++ b))
    × (length b ≡ encoded_len (blob 0 100 1 ∷ blob 0 100 1 ∷ []))
    × (parse_blob_table b ≡ ok (blob 0 100 1 ∷ blob 0 100 1 ∷ []))
parse-append_blob_table_example =
    parse-append_blob_table (blob 0 100 1 ∷ blob 0 100 1 ∷ []) (5 ∷ []) (blob-Fits, (blob-Fits, tt))

-- A table of five entries whose index is of a longer one: it puts the hash behind the table's end.
abbrev table : BlobTable
table = record { entries = blobs; hash_index = some ((replicate 20 1, 7) ∷ []); indexed_n = 9 }

-- A table that was cut and grew again to the length that its index covers.
regrown_run :
    (by_hash (replicate 20 9) (record {
      entries = blob 0 100 1 ∷ [];
      hash_index = some ((replicate 20 9, 0) ∷ []);
      indexed_n = 1;
    })).1
    ≡ found (blob 0 100 1)
unfolding by_hash ensure_index reset extend lookup answer_at eq_bytes
regrown_run = refl

by_hash-scan_example :
    ((by_hash (replicate 20 1) table).1 ≡ answer_of (by_hash_linear_scan (replicate 20 1) blobs))
    × ((by_hash (replicate 20 1) table).0.entries ≡ blobs)
    × ((by_hash (replicate 20 1) table).0.indexed_n ≡ 5)
    × WellIndexed (by_hash (replicate 20 1) table).0
by_hash-scan_example =
    by_hash-scan (replicate 20 1) table (shrunk ((replicate 20 1, 7) ∷ []) refl (omega arith))

solid_resources_collect_example :
    (all_specs (solid_resources true blobs) ≡ solid_specs blobs)
    × (all_blobs (solid_resources true blobs) ≡ solid_blobs blobs)
solid_resources_collect_example = solid_resources_collect blobs

-- The order of the solid blobs.
solid_blobs_run : solid_blobs blobs ≡ blob 16 70 3 ∷ blob 16 30 4 ∷ []
unfolding gowim.Wim.BlobTable.Solid.is_spec gowim.Wim.Resource.is_solid gowim.Wim.Resource.has_flag
solid_blobs_run = refl

parse-append_security_data_example :
    (b : Bytes) × (append_security_data ((1 ∷ 2 ∷ 3 ∷ []) ∷ (4 ∷ []) ∷ []) (5 ∷ []) ≡ (5 ∷ []) ++ b)
    × (length b ≡ gowim.Wim.Security.encoded_len ((1 ∷ 2 ∷ 3 ∷ []) ∷ (4 ∷ []) ∷ []))
    × (parse_security_data (b ++ (6 ∷ []))
        ≡ ok (
          (1 ∷ 2 ∷ 3 ∷ []) ∷ (4 ∷ []) ∷ [],
          gowim.Wim.Security.encoded_len ((1 ∷ 2 ∷ 3 ∷ []) ∷ (4 ∷ []) ∷ []),
        ))
parse-append_security_data_example =
    parse-append_security_data ((1 ∷ 2 ∷ 3 ∷ []) ∷ (4 ∷ []) ∷ []) (5 ∷ []) (6 ∷ [])
      (omega arith, (omega arith, tt)) (omega arith)
      (unfold gowim.Wim.Security.descriptors_size in omega arith)

-- The letter a and a code point outside the basic plane.
utf16le_to_string-string_to_utf16le_example :
    utf16le_to_string (string_to_utf16le (b'a' ∷ 0x1f600 ∷ [])) ≡ b'a' ∷ 0x1f600 ∷ []
utf16le_to_string-string_to_utf16le_example =
    utf16le_to_string-string_to_utf16le (b'a' ∷ 0x1f600 ∷ [])
      (inl (omega arith), (inr (omega arith, omega arith), tt))

-- "é€😀", then a lone continuation, an overlong form and a rune that is cut off.
runes_run :
    utf8_to_string (
      0xc3 ∷ 0xa9 ∷ 0xe2 ∷ 0x82 ∷ 0xac ∷ 0xf0 ∷ 0x9f ∷ 0x98 ∷ 0x80 ∷ 0x80 ∷ 0xc0 ∷ 0xaf ∷ 0xe2
      ∷ 0x82 ∷ [])
    ≡ 0xe9 ∷ 0x20ac ∷ 0x1f600 ∷ 0xfffd ∷ 0xfffd ∷ 0xfffd ∷ 0xfffd ∷ 0xfffd ∷ []
unfolding utf8_to_string runes_from decode_rune within continues second_fits
runes_run = refl
