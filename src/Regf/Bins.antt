-- ===== src/Regf/Bins.antt =====
-- regf/hbin.go: the 32-byte header of a hive bin, and the cells behind it.
pub mod RoundTrip
use gowim.Base.{
  ℕ, ◌+◌, ◌-◌, ◌%◌, ◌^◌, Bool, not, ◌||◌, ◌==◌, List, [], ◌∷◌, ◌++◌, length, ltb, if◌then◌else◌,
  Result, ok, err,
}
use gowim.Bytes.{Bytes, bytes4, bytes8, u32_at, u64_at, write_at, slice, eq_bytes}

abbrev pub hbin_header_size : ℕ
hbin_header_size = 32

abbrev pub hbin_magic : Bytes
hbin_magic = b'h' ∷ b'b' ∷ b'i' ∷ b'n' ∷ []

pub record HBin : Type 0 where
  pub offset : ℕ
  pub size : ℕ
  pub reserved1 : ℕ
  pub reserved2 : ℕ
  pub timestamp : ℕ
  pub spare : ℕ
  pub cells : Bytes

pub data BinError : Type 0 where
  out_of_bounds bad_magic implausible_size overruns : BinError

-- The fields of the header `h`, and the cells.
abbrev pub bin_from : Bytes → Bytes → HBin
bin_from h cells = record {
  offset = u32_at h 4;
  size = u32_at h 8;
  reserved1 = u32_at h 12;
  reserved2 = u32_at h 16;
  timestamp = u64_at h 20;
  spare = u32_at h 28;
  cells = cells;
}

-- The bin at an offset, and the offset behind it, as a uint32. An int has 64 bits, so that its sum
-- does not overflow.
unfoldable pub parse_hbin : Bytes → ℕ → Result BinError (HBin × ℕ)
parse_hbin hbins o =
    let h = slice hbins o hbin_header_size in
    let size = u32_at h 8 in
    if ltb (length hbins) (o + hbin_header_size)
    then err out_of_bounds
    else if not (eq_bytes (slice h 0 4) hbin_magic)
    then err bad_magic
    else if ltb size hbin_header_size || not (size % 8 == 0)
    then err implausible_size
    else if ltb (length hbins) (o + size)
    then err overruns
    else ok (
      bin_from h (slice hbins (o + hbin_header_size) (size - hbin_header_size)),
      (o + size) % 2 ^ 32,
    )

unfoldable pub write_header : HBin → Bytes → Bytes
write_header bin b0 =
    let b1 = write_at b0 0 hbin_magic in
    let b2 = write_at b1 4 (bytes4 bin.offset) in
    let b3 = write_at b2 8 (bytes4 bin.size) in
    let b4 = write_at b3 12 (bytes4 bin.reserved1) in
    let b5 = write_at b4 16 (bytes4 bin.reserved2) in
    let b6 = write_at b5 20 (bytes8 bin.timestamp) in write_at b6 28 (bytes4 bin.spare)
