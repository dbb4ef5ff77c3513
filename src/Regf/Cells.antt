-- ===== src/Regf/Cells.antt =====
-- The fixed part and the name of the two cells that hold a hive's keys and values: regf/nk.go's
-- `parseNKCell` and `appendTo`, and regf/vk.go's `parseVKCell` and `appendToVK`.
pub mod RoundTrip
use gowim.Base.{
  ℕ, ◌+◌, ◌%◌, ◌^◌, Bool, not, List, [], ◌∷◌, ◌++◌, length, ltb, if◌then◌else◌, replicate, Result,
  ok, err,
}
use gowim.Bytes.{Bytes, bytes2, bytes4, bytes8, u16_at, u32_at, u64_at, write_at, slice, eq_bytes}

-- The three errors of both parsers.
pub data CellError : Type 0 where
  too_short bad_signature name_overruns : CellError

abbrev pub nk_header_size : ℕ
nk_header_size = 76

abbrev pub nk_magic : Bytes
nk_magic = b'n' ∷ b'k' ∷ []

pub record NkCell : Type 0 where
  pub flags : ℕ
  pub last_written : ℕ
  pub parent_offset : ℕ
  pub num_subkeys : ℕ
  pub num_volatile_subkeys : ℕ
  pub subkeys_offset : ℕ
  pub volatile_subkeys_offset : ℕ
  pub num_values : ℕ
  pub values_offset : ℕ
  pub security_offset : ℕ
  pub class_name_offset : ℕ
  pub largest_subkey_name_size : ℕ
  pub largest_subkey_class_size : ℕ
  pub largest_value_name_size : ℕ
  pub largest_value_data_size : ℕ
  pub unknown6 : ℕ
  pub class_name_size : ℕ
  pub name : Bytes

unfoldable pub parse_nk_cell : Bytes → Result CellError NkCell
parse_nk_cell b =
    let name_size = u16_at b 72 in
    if ltb (length b) nk_header_size
    then err too_short
    else if not (eq_bytes (slice b 0 2) nk_magic)
    then err bad_signature
    else if ltb (length b) (nk_header_size + name_size)
    then err name_overruns
    else ok (record {
      flags = u16_at b 2;
      last_written = u64_at b 4;
      parent_offset = u32_at b 16;
      num_subkeys = u32_at b 20;
      num_volatile_subkeys = u32_at b 24;
      subkeys_offset = u32_at b 28;
      volatile_subkeys_offset = u32_at b 32;
      num_values = u32_at b 36;
      values_offset = u32_at b 40;
      security_offset = u32_at b 44;
      class_name_offset = u32_at b 48;
      largest_subkey_name_size = u32_at b 52;
      largest_subkey_class_size = u32_at b 56;
      largest_value_name_size = u32_at b 60;
      largest_value_data_size = u32_at b 64;
      unknown6 = u32_at b 68;
      class_name_size = u16_at b 74;
      name = slice b nk_header_size name_size;
    })

-- The array `hdr` of `appendTo`; `uint16(len(n.name))` wraps around.
unfoldable pub nk_header : NkCell → Bytes
nk_header n =
    let h0 = write_at (replicate nk_header_size 0) 0 nk_magic in
    let h1 = write_at h0 2 (bytes2 n.flags) in
    let h2 = write_at h1 4 (bytes8 n.last_written) in
    let h3 = write_at h2 16 (bytes4 n.parent_offset) in
    let h4 = write_at h3 20 (bytes4 n.num_subkeys) in
    let h5 = write_at h4 24 (bytes4 n.num_volatile_subkeys) in
    let h6 = write_at h5 28 (bytes4 n.subkeys_offset) in
    let h7 = write_at h6 32 (bytes4 n.volatile_subkeys_offset) in
    let h8 = write_at h7 36 (bytes4 n.num_values) in
    let h9 = write_at h8 40 (bytes4 n.values_offset) in
    let h10 = write_at h9 44 (bytes4 n.security_offset) in
    let h11 = write_at h10 48 (bytes4 n.class_name_offset) in
    let h12 = write_at h11 52 (bytes4 n.largest_subkey_name_size) in
    let h13 = write_at h12 56 (bytes4 n.largest_subkey_class_size) in
    let h14 = write_at h13 60 (bytes4 n.largest_value_name_size) in
    let h15 = write_at h14 64 (bytes4 n.largest_value_data_size) in
    let h16 = write_at h15 68 (bytes4 n.unknown6) in
    let h17 = write_at h16 72 (bytes2 (length n.name)) in write_at h17 74 (bytes2 n.class_name_size)

unfoldable pub append_nk_cell : NkCell → Bytes → Bytes
append_nk_cell n dst = (dst ++ nk_header n) ++ n.name

abbrev pub vk_header_size : ℕ
vk_header_size = 20

abbrev pub vk_magic : Bytes
vk_magic = b'v' ∷ b'k' ∷ []

-- The results of `parseVKCell` but its error, and the arguments of `appendToVK` but `dst`.
pub record VkCell : Type 0 where
  pub name : Bytes
  pub data_size : ℕ
  pub data_offset : ℕ
  pub type : ℕ
  pub flags : ℕ

unfoldable pub parse_vk_cell : Bytes → Result CellError VkCell
parse_vk_cell b =
    let name_size = u16_at b 2 in
    if ltb (length b) vk_header_size
    then err too_short
    else if not (eq_bytes (slice b 0 2) vk_magic)
    then err bad_signature
    else if ltb (length b) (vk_header_size + name_size)
    then err name_overruns
    else ok (record {
      name = slice b vk_header_size name_size;
      data_size = u32_at b 4;
      data_offset = u32_at b 8;
      type = u32_at b 12;
      flags = u16_at b 16;
    })

unfoldable pub vk_header : VkCell → Bytes
vk_header v =
    let h0 = write_at (replicate vk_header_size 0) 0 vk_magic in
    let h1 = write_at h0 2 (bytes2 (length v.name)) in
    let h2 = write_at h1 4 (bytes4 v.data_size) in
    let h3 = write_at h2 8 (bytes4 v.data_offset) in
    let h4 = write_at h3 12 (bytes4 v.type) in write_at h4 16 (bytes2 v.flags)

unfoldable pub append_vk_cell : VkCell → Bytes → Bytes
append_vk_cell v dst = (dst ++ vk_header v) ++ v.name

abbrev pub sk_header_size : ℕ
sk_header_size = 20

abbrev pub sk_magic : Bytes
sk_magic = b's' ∷ b'k' ∷ []

pub record SkCell : Type 0 where
  pub unknown : ℕ
  pub prev_offset : ℕ
  pub next_offset : ℕ
  pub ref_count : ℕ
  pub descriptor : Bytes

-- The third error is that the descriptor overruns the cell.
unfoldable pub parse_sk_cell : Bytes → Result CellError SkCell
parse_sk_cell b =
    let size = u32_at b 16 in
    if ltb (length b) sk_header_size
    then err too_short
    else if not (eq_bytes (slice b 0 2) sk_magic)
    then err bad_signature
    else if ltb (length b) (sk_header_size + size)
    then err name_overruns
    else ok (record {
      unknown = u16_at b 2;
      prev_offset = u32_at b 4;
      next_offset = u32_at b 8;
      ref_count = u32_at b 12;
      descriptor = slice b sk_header_size size;
    })

unfoldable pub sk_header : SkCell → Bytes
sk_header s =
    let h0 = write_at (replicate sk_header_size 0) 0 sk_magic in
    let h1 = write_at h0 2 (bytes2 s.unknown) in
    let h2 = write_at h1 4 (bytes4 s.prev_offset) in
    let h3 = write_at h2 8 (bytes4 s.next_offset) in
    let h4 = write_at h3 12 (bytes4 s.ref_count) in write_at h4 16 (bytes4 (length s.descriptor))

unfoldable pub append_sk_cell : SkCell → Bytes → Bytes
append_sk_cell s dst = (dst ++ sk_header s) ++ s.descriptor
