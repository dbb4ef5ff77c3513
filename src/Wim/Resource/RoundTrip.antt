-- ===== src/Wim/Resource/RoundTrip.antt =====
-- The 24-byte form of a resource header and the header it stands for.
use gowim.Base.{◌≡◌, ◌<◌, ◌^◌, arith, ◌++◌, ok}
use gowim.Bytes.{Bytes, IsByte, join7-byte, join8-byte}
use gowim.Wim.Resource.{ResourceHeader, resource_bytes, parse_resource_header}

-- The ranges of the Go types, and of the 7-byte size field.
pub record FitsResource (r : ResourceHeader) : Type 0 where
  pub size_fits : r.size_in_wim < 2 ^ 56
  pub flags_fit : IsByte r.flags
  pub offset_fits : r.offset_in_wim < 2 ^ 64
  pub uncompressed_fits : r.uncompressed_size < 2 ^ 64

-- `parseResourceHeader` reads a header whose fields fit the format back from the 24 bytes that
-- `appendTo` writes for it, whatever follows them.
pub parse-resource_bytes :
    (r : ResourceHeader) (rest : Bytes)
    → FitsResource r
    → parse_resource_header (resource_bytes r ++ rest) ≡ ok r
unfolding parse_resource_header resource_bytes
parse-resource_bytes r rest f = ground (
  arith,
  join7-byte r.size_in_wim f.size_fits,
  join8-byte r.offset_in_wim f.offset_fits,
  join8-byte r.uncompressed_size f.uncompressed_fits,
)
