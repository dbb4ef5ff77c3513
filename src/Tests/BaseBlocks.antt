-- ===== src/Tests/BaseBlocks.antt =====
-- A base block at concrete values.
use gowim.Base.{ℕ, refl, arith, ◌≡◌, [], ◌∷◌, ◌++◌, length, replicate, ok}
use gowim.Bytes.{Bytes}
use gowim.Regf.BaseBlock.{BaseBlock, compute_checksum, append_base_block, parse_base_block}
use gowim.Regf.BaseBlock.Fields.{FitsBlock}
use gowim.Regf.BaseBlock.RoundTrip.{parse-append_base_block}

abbrev block : BaseBlock
block = record {
  primary_sequence = 3;
  secondary_sequence = 3;
  last_written = 0x1d9_0000_0000_0000;
  major_version = 1;
  minor_version = 5;
  file_type = 0;
  file_format = 1;
  root_cell_offset = 32;
  hive_bins_data_size = 4096;
  clustering_factor = 1;
  file_name = replicate 64 65;
  reserved = replicate 396 0;
  checksum = 0;
  tail = replicate 3576 0;
  boot_type = 0;
  boot_recover = 9;
}

block-Fits : FitsBlock block
block-Fits = record {
  primary_fits = omega arith;
  secondary_fits = omega arith;
  written_fits = omega arith;
  major_fits = omega arith;
  minor_fits = omega arith;
  type_fits = omega arith;
  format_fits = omega arith;
  root_fits = omega arith;
  size_fits = omega arith;
  factor_fits = omega arith;
  name_length = refl;
  reserved_length = refl;
  tail_length = refl;
  boot_type_fits = omega arith;
  boot_recover_fits = omega arith;
}

parse-append_base_block_example :
    (out : Bytes) × ((sum : ℕ) × (append_base_block block [] ≡ ok out)
      × (length out ≡ 4096)
      × (compute_checksum out ≡ ok sum)
      × (parse_base_block (out ++ (1 ∷ [])) ≡ ok (record block { checksum = sum })))
parse-append_base_block_example =
    parse-append_base_block block [] (1 ∷ []) block-Fits (ground arith)
