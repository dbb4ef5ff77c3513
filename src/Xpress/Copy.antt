-- ===== src/Xpress/Copy.antt =====
-- xpressCopy of xpress/decode.go: the copy of a match within the output, in bulk where source and
-- destination do not overlap.
pub mod Bulk
use gowim.Base.{ℕ, zero, suc, ◌+◌, ◌-◌, set, leb, if◌then◌else◌}
use gowim.Bytes.{Bytes, byte_at, slice, write_at}

-- `for k := 0; k < length; k++ { dst[pos+k] = dst[src+k] }`
unfoldable pub copy_loop : Bytes → (pos src length : ℕ) → Bytes
copy_loop dst pos src zero = dst
copy_loop dst pos src (suc n) = copy_loop (set dst pos (byte_at dst src)) (pos + 1) (src + 1) n

unfoldable pub xpress_copy : Bytes → (pos offset length : ℕ) → Bytes
unfolding copy_loop
xpress_copy dst pos offset len =
    let src = pos - offset in
    if leb len offset then write_at dst pos (slice dst src len) else copy_loop dst pos src len
