-- ===== src/Tests/Hives.antt =====
-- The cells and bins of a hive at concrete inputs.
use gowim.Base.{◌+◌, ◌<◌, ◌^◌, ◌≡◌, refl, arith, [], ◌∷◌, ◌++◌, length, ok, replicate}
use gowim.Bytes.{Bytes}
use gowim.Regf.Cells.{NkCell, VkCell, SkCell, parse_nk_cell, append_nk_cell}
use gowim.Regf.Cells.RoundTrip.{FitsNk, FitsVk, FitsSk, parse-append_nk_cell}
use gowim.Regf.Arena.{align_up8_int}
use gowim.Regf.Bins.{HBin}
use gowim.Regf.Bins.RoundTrip.{FitsBin}

abbrev padding : Bytes
padding = 0 ∷ 0 ∷ 0 ∷ []

abbrev key_cell : NkCell
key_cell = record {
  flags = 32;
  last_written = 40;
  parent_offset = 48;
  num_subkeys = 56;
  num_volatile_subkeys = 64;
  subkeys_offset = 72;
  volatile_subkeys_offset = 80;
  num_values = 88;
  values_offset = 96;
  security_offset = 104;
  class_name_offset = 112;
  largest_subkey_name_size = 120;
  largest_subkey_class_size = 128;
  largest_value_name_size = 136;
  largest_value_data_size = 144;
  unknown6 = 152;
  class_name_size = 0;
  name = b'a' ∷ b'b' ∷ [];
}

key_cell-Fits : FitsNk key_cell
key_cell-Fits = record {
  flags_fits = omega arith;
  last_written_fits = omega arith;
  parent_offset_fits = omega arith;
  num_subkeys_fits = omega arith;
  num_volatile_subkeys_fits = omega arith;
  subkeys_offset_fits = omega arith;
  volatile_subkeys_offset_fits = omega arith;
  num_values_fits = omega arith;
  values_offset_fits = omega arith;
  security_offset_fits = omega arith;
  class_name_offset_fits = omega arith;
  largest_subkey_name_size_fits = omega arith;
  largest_subkey_class_size_fits = omega arith;
  largest_value_name_size_fits = omega arith;
  largest_value_data_size_fits = omega arith;
  unknown6_fits = omega arith;
  class_name_size_fits = omega arith;
  name_fits = omega arith;
}

parse-append_nk_cell_example :
    (b : Bytes) × (append_nk_cell key_cell (1 ∷ []) ≡ (1 ∷ []) ++ b)
    × (length b ≡ 78)
    × (parse_nk_cell (b ++ padding) ≡ ok key_cell)
parse-append_nk_cell_example = parse-append_nk_cell key_cell (1 ∷ []) padding key_cell-Fits

abbrev value_cell : VkCell
value_cell = record {
  name = b'v' ∷ [];
  data_size = 4;
  data_offset = 0x12345678;
  type = 4;
  flags = 1;
}

value_cell-Fits : FitsVk value_cell
value_cell-Fits = record {
  name_fits = omega arith;
  data_size_fits = omega arith;
  data_offset_fits = omega arith;
  type_fits = omega arith;
  flags_fits = omega arith;
}

abbrev security_cell : SkCell
security_cell = record {
  unknown = 0;
  prev_offset = 32;
  next_offset = 64;
  ref_count = 2;
  descriptor = 5 ∷ 6 ∷ [];
}

security_cell-Fits : FitsSk security_cell
security_cell-Fits = record {
  unknown_fits = omega arith;
  prev_offset_fits = omega arith;
  next_offset_fits = omega arith;
  ref_count_fits = omega arith;
  descriptor_fits = omega arith;
}

abbrev bin : HBin
bin = record {
  offset = 8;
  size = 40;
  reserved1 = 0;
  reserved2 = 0;
  timestamp = 99;
  spare = 0;
  cells = replicate 8 7;
}

bin-Fits : FitsBin bin
bin-Fits = record {
  offset_fits = omega arith;
  size_fits = omega arith;
  reserved1_fits = omega arith;
  reserved2_fits = omega arith;
  timestamp_fits = omega arith;
  spare_fits = omega arith;
  size_whole = refl;
  size_aligned = refl;
}

arena_small : length padding + align_up8_int (4 + length padding) < 2 ^ 31
unfolding align_up8_int
arena_small = omega arith
