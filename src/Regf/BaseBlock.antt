-- ===== src/Regf/BaseBlock.antt =====
-- regf/baseblock.go: the 4096-byte block at the start of a hive file, and its checksum. The arrays of
-- the record are lists of their lengths.
pub mod Checksum
pub mod Fields
pub mod RoundTrip
use Prim.Native.Nat.{bit_xor}
use gowim.Base.{
  ℕ, zero, suc, ◌+◌, ◌-◌, ◌*◌, ◌%◌, ◌^◌, Bool, not, List, [], ◌∷◌, ◌++◌, length, ltb, ◌==◌,
  if◌then◌else◌, replicate, take, Result, ok, err, ◌>>=◌,
}
use gowim.Bytes.{Bytes, bytes4, bytes8, u32_at, u64_at, slice, eq_bytes}

abbrev pub base_block_size : ℕ
base_block_size = 4096

abbrev pub base_block_checksum_range : ℕ
base_block_checksum_range = 508

abbrev pub base_block_magic : Bytes
base_block_magic = b'r' ∷ b'e' ∷ b'g' ∷ b'f' ∷ []

abbrev pub version1_1 : ℕ
version1_1 = 1

pub record BaseBlock : Type 0 where
  pub primary_sequence : ℕ
  pub secondary_sequence : ℕ
  pub last_written : ℕ
  pub major_version : ℕ
  pub minor_version : ℕ
  pub file_type : ℕ
  pub file_format : ℕ
  pub root_cell_offset : ℕ
  pub hive_bins_data_size : ℕ
  pub clustering_factor : ℕ
  pub file_name : Bytes
  pub reserved : Bytes
  pub checksum : ℕ
  pub tail : Bytes
  pub boot_type : ℕ
  pub boot_recover : ℕ

pub data BaseBlockError : Type 0 where
  too_short_for_checksum truncated bad_magic checksum_mismatch unsupported_version : BaseBlockError

-- The loop of `ComputeChecksum`, with the rounds left and the index of the dword.
unfoldable pub xor_dwords : ℕ → ℕ → ℕ → Bytes → ℕ
xor_dwords zero i sum buf = sum
xor_dwords (suc n) i sum buf = xor_dwords n (i + 1) (bit_xor sum (u32_at buf (i * 4)) % 2 ^ 32) buf

unfoldable pub compute_checksum : Bytes → Result BaseBlockError ℕ
compute_checksum buf =
    if ltb (length buf) base_block_checksum_range
    then err too_short_for_checksum
    else ok (xor_dwords 127 0 0 buf)

-- The fields of a block whose checksum is `sum`.
unfoldable pub fields_at : Bytes → ℕ → BaseBlock
fields_at b sum = record {
  primary_sequence = u32_at b 4;
  secondary_sequence = u32_at b 8;
  last_written = u64_at b 12;
  major_version = u32_at b 20;
  minor_version = u32_at b 24;
  file_type = u32_at b 28;
  file_format = u32_at b 32;
  root_cell_offset = u32_at b 36;
  hive_bins_data_size = u32_at b 40;
  clustering_factor = u32_at b 44;
  file_name = slice b 48 64;
  reserved = slice b 112 396;
  checksum = sum;
  tail = slice b 512 3576;
  boot_type = u32_at b 4088;
  boot_recover = u32_at b 4092;
}

unfoldable pub parse_base_block : Bytes → Result BaseBlockError BaseBlock
parse_base_block contents =
    let b = take base_block_size contents in
    let got_sum = u32_at b 508 in
    let checked = do
      want_sum ← compute_checksum b
      (if not (want_sum == got_sum)
          then err checksum_mismatch
          else if u32_at b 24 == version1_1
          then err unsupported_version
          else ok (fields_at b got_sum))
    in if ltb (length contents) base_block_size
      then err truncated
      else if not (eq_bytes (slice b 0 4) base_block_magic)
      then err bad_magic
      else checked

-- The fields before the file's name, which `AppendTo` puts one behind the other.
unfoldable pub number_fields : BaseBlock → Bytes
number_fields b =
    base_block_magic
    ++ (bytes4 b.primary_sequence
        ++ (bytes4 b.secondary_sequence
            ++ (bytes8 b.last_written
                ++ (bytes4 b.major_version
                    ++ (bytes4 b.minor_version
                        ++ (bytes4 b.file_type
                            ++ (bytes4 b.file_format
                                ++ (bytes4 b.root_cell_offset
                                    ++ (bytes4 b.hive_bins_data_size
                                        ++ bytes4 b.clustering_factor)))))))))

-- The bytes that the checksum covers.
unfoldable pub summed : BaseBlock → Bytes
summed b = number_fields b ++ (b.file_name ++ b.reserved)

-- The array `buf` when the checksum is computed: zeros behind these bytes.
unfoldable pub append_base_block : BaseBlock → Bytes → Result BaseBlockError Bytes
append_base_block b dst = do
  sum ← compute_checksum (summed b ++ replicate (base_block_size - base_block_checksum_range) 0)
  ok (
      dst
      ++ (summed b ++ (bytes4 sum ++ (b.tail ++ (bytes4 b.boot_type ++ bytes4 b.boot_recover)))))
