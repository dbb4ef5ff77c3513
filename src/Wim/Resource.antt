-- ===== src/Wim/Resource.antt =====
-- wim/resource.go: the resource header, which locates a region of the file, and its 24-byte form.
pub mod RoundTrip
use gowim.Base.{
  ℕ, zero, suc, ◌+◌, ◌^◌, ◌-◌, Bool, true, false, not, ◌&&◌, List, [], ◌∷◌, ◌++◌, length, ltb, ◌==◌,
  if◌then◌else◌, replicate, bit_and, Result, ok, err,
}
use gowim.Bytes.{Bytes, byte, bytes8, join7, byte_at, u64_at, write_at}

abbrev pub resource_header_size : ℕ
resource_header_size = 24

abbrev pub max_reshdr_size : ℕ
max_reshdr_size = 2 ^ 56 - 1

abbrev pub solid_resource_magic : ℕ
solid_resource_magic = 0x100000000

pub record ResourceHeader : Type 0 where
  pub size_in_wim : ℕ
  pub flags : ℕ
  pub offset_in_wim : ℕ
  pub uncompressed_size : ℕ

pub data ResourceError : Type 0 where
  short_buffer size_too_large : ResourceError

-- `flags & mask != 0`.
unfoldable pub has_flag : ℕ → ℕ → Bool
has_flag flags mask = not (bit_and flags mask == 0)

unfoldable pub is_compressed : ResourceHeader → Bool
unfolding has_flag
is_compressed r = has_flag r.flags 0x14

unfoldable pub is_metadata : ResourceHeader → Bool
unfolding has_flag
is_metadata r = has_flag r.flags 0x02

unfoldable pub is_solid : ResourceHeader → Bool
unfolding has_flag
is_solid r = has_flag r.flags 0x10

unfoldable pub is_zero : ResourceHeader → Bool
is_zero r = r.size_in_wim == 0 && r.flags == 0 && r.offset_in_wim == 0 && r.uncompressed_size == 0

unfoldable pub parse_resource_header : Bytes → Result ResourceError ResourceHeader
parse_resource_header b =
    if ltb (length b) resource_header_size
    then err short_buffer
    else ok (record {
      size_in_wim =
          join7 (byte_at b 0) (byte_at b 1) (byte_at b 2) (byte_at b 3) (byte_at b 4) (byte_at b 5)
            (byte_at b 6);
      flags = byte_at b 7;
      offset_in_wim = u64_at b 8;
      uncompressed_size = u64_at b 16;
    })

-- The array `b` of `appendTo`, after its assignments.
unfoldable pub resource_bytes : ResourceHeader → Bytes
resource_bytes r =
    let b0 = replicate resource_header_size 0 in
    let b1 = write_at b0 0 (
      byte r.size_in_wim 0
      ∷ byte r.size_in_wim 1
      ∷ byte r.size_in_wim 2
      ∷ byte r.size_in_wim 3
      ∷ byte r.size_in_wim 4
      ∷ byte r.size_in_wim 5
      ∷ byte r.size_in_wim 6
      ∷ []) in
    let b2 = write_at b1 7 (r.flags ∷ []) in
    let b3 = write_at b2 8 (bytes8 r.offset_in_wim) in write_at b3 16 (bytes8 r.uncompressed_size)

unfoldable pub append_resource_header : ResourceHeader → Bytes → Result ResourceError Bytes
unfolding resource_bytes
append_resource_header r dst =
    if ltb max_reshdr_size r.size_in_wim then err size_too_large else ok (dst ++ resource_bytes r)
