-- ===== src/Regf/Cells/RoundTrip.antt =====
-- Cells written and parsed again.
use gowim.Base.{
  ◌+◌, ◌^◌, ◌<◌, ◌≡◌, arith, ◌++◌, length, ok, length-append, take-append, append_assoc,
}
use gowim.Bytes.{Bytes, eq_bytes, join2-byte, join4-byte, join8-byte}
use gowim.Regf.Cells.{
  SkCell, sk_header, parse_sk_cell, append_sk_cell, NkCell, VkCell, nk_header, vk_header,
  parse_nk_cell, parse_vk_cell, append_nk_cell, append_vk_cell,
}

-- The fields of a key cell are in the range of their types, and its name's length in that of its field.
pub record FitsNk (n : NkCell) : Type 0 where
  pub flags_fits : n.flags < 2 ^ 16
  pub last_written_fits : n.last_written < 2 ^ 64
  pub parent_offset_fits : n.parent_offset < 2 ^ 32
  pub num_subkeys_fits : n.num_subkeys < 2 ^ 32
  pub num_volatile_subkeys_fits : n.num_volatile_subkeys < 2 ^ 32
  pub subkeys_offset_fits : n.subkeys_offset < 2 ^ 32
  pub volatile_subkeys_offset_fits : n.volatile_subkeys_offset < 2 ^ 32
  pub num_values_fits : n.num_values < 2 ^ 32
  pub values_offset_fits : n.values_offset < 2 ^ 32
  pub security_offset_fits : n.security_offset < 2 ^ 32
  pub class_name_offset_fits : n.class_name_offset < 2 ^ 32
  pub largest_subkey_name_size_fits : n.largest_subkey_name_size < 2 ^ 32
  pub largest_subkey_class_size_fits : n.largest_subkey_class_size < 2 ^ 32
  pub largest_value_name_size_fits : n.largest_value_name_size < 2 ^ 32
  pub largest_value_data_size_fits : n.largest_value_data_size < 2 ^ 32
  pub unknown6_fits : n.unknown6 < 2 ^ 32
  pub class_name_size_fits : n.class_name_size < 2 ^ 16
  pub name_fits : length n.name < 2 ^ 16

pub record FitsVk (v : VkCell) : Type 0 where
  pub name_fits : length v.name < 2 ^ 16
  pub data_size_fits : v.data_size < 2 ^ 32
  pub data_offset_fits : v.data_offset < 2 ^ 32
  pub type_fits : v.type < 2 ^ 32
  pub flags_fits : v.flags < 2 ^ 16

-- A value cell in range is appended to `dst` as its 20 bytes and its name, and `parseVKCell` reads it
-- back from those bytes, whatever padding follows them.
pub parse-append_vk_cell :
    (v : VkCell) (dst rest : Bytes)
    → FitsVk v
    → (b : Bytes) × (append_vk_cell v dst ≡ dst ++ b)
      × (length b ≡ 20 + length v.name)
      × (parse_vk_cell (b ++ rest) ≡ ok v)
unfolding append_vk_cell parse_vk_cell vk_header eq_bytes
parse-append_vk_cell v dst rest f = (
  vk_header v ++ v.name,
  append_assoc dst (vk_header v) v.name,
  omega arith,
  ground (
    arith,
    join2-byte (length v.name) f.name_fits,
    join4-byte v.data_size f.data_size_fits,
    join4-byte v.data_offset f.data_offset_fits,
    join4-byte v.type f.type_fits,
    join2-byte v.flags f.flags_fits,
    take-append v.name rest,
    length-append v.name rest,
  ),
)

-- A key cell in range is appended to `dst` as its 76 bytes and its name, and `parseNKCell` reads it
-- back from those bytes, whatever padding follows them.
pub parse-append_nk_cell :
    (n : NkCell) (dst rest : Bytes)
    → FitsNk n
    → (b : Bytes) × (append_nk_cell n dst ≡ dst ++ b)
      × (length b ≡ 76 + length n.name)
      × (parse_nk_cell (b ++ rest) ≡ ok n)
unfolding append_nk_cell parse_nk_cell nk_header eq_bytes
parse-append_nk_cell n dst rest f = (
  nk_header n ++ n.name,
  append_assoc dst (nk_header n) n.name,
  omega arith,
  ground (
    arith,
    join2-byte (length n.name) f.name_fits,
    join2-byte n.class_name_size f.class_name_size_fits,
    join2-byte n.flags f.flags_fits,
    join8-byte n.last_written f.last_written_fits,
    join4-byte n.parent_offset f.parent_offset_fits,
    join4-byte n.num_subkeys f.num_subkeys_fits,
    join4-byte n.num_volatile_subkeys f.num_volatile_subkeys_fits,
    join4-byte n.subkeys_offset f.subkeys_offset_fits,
    join4-byte n.volatile_subkeys_offset f.volatile_subkeys_offset_fits,
    join4-byte n.num_values f.num_values_fits,
    join4-byte n.values_offset f.values_offset_fits,
    join4-byte n.security_offset f.security_offset_fits,
    join4-byte n.class_name_offset f.class_name_offset_fits,
    join4-byte n.largest_subkey_name_size f.largest_subkey_name_size_fits,
    join4-byte n.largest_subkey_class_size f.largest_subkey_class_size_fits,
    join4-byte n.largest_value_name_size f.largest_value_name_size_fits,
    join4-byte n.largest_value_data_size f.largest_value_data_size_fits,
    join4-byte n.unknown6 f.unknown6_fits,
    take-append n.name rest,
    length-append n.name rest,
  ),
)

pub record FitsSk (s : SkCell) : Type 0 where
  pub unknown_fits : s.unknown < 2 ^ 16
  pub prev_offset_fits : s.prev_offset < 2 ^ 32
  pub next_offset_fits : s.next_offset < 2 ^ 32
  pub ref_count_fits : s.ref_count < 2 ^ 32
  pub descriptor_fits : length s.descriptor < 2 ^ 32

-- A security cell in range is appended to `dst` as its 20 bytes and its descriptor, and `parseSKCell`
-- reads it back from those bytes, whatever padding follows them.
pub parse-append_sk_cell :
    (s : SkCell) (dst rest : Bytes)
    → FitsSk s
    → (b : Bytes) × (append_sk_cell s dst ≡ dst ++ b)
      × (length b ≡ 20 + length s.descriptor)
      × (parse_sk_cell (b ++ rest) ≡ ok s)
unfolding append_sk_cell parse_sk_cell sk_header eq_bytes
parse-append_sk_cell s dst rest f = (
  sk_header s ++ s.descriptor,
  append_assoc dst (sk_header s) s.descriptor,
  omega arith,
  ground (
    arith,
    join2-byte s.unknown f.unknown_fits,
    join4-byte s.prev_offset f.prev_offset_fits,
    join4-byte s.next_offset f.next_offset_fits,
    join4-byte s.ref_count f.ref_count_fits,
    join4-byte (length s.descriptor) f.descriptor_fits,
    take-append s.descriptor rest,
    length-append s.descriptor rest,
  ),
)
