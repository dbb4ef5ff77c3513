-- ===== src/Wim/Dentry.antt =====
-- wim/dentry.go: a directory entry in the bytes of an image's metadata, and the tree of entries that
-- the offsets among them describe. A buffer in memory is shorter than 2^63 bytes, and a slice's
-- capacity is its length.
pub mod Write
pub mod Fits
pub mod Fields
pub mod Names
pub mod Streams
pub mod Layout
pub mod Entry
pub mod RoundTrip
use gowim.Base.{
  ℕ, zero, suc, ◌+◌, ◌-◌, ◌*◌, ◌/◌, ◌%◌, ◌^◌, Bool, true, false, not, ◌&&◌, ◌||◌, List, [], ◌∷◌,
  ◌++◌, length, ltb, leb, ◌==◌, if◌then◌else◌, Option, none, some, Result, ok, err, ◌>>=◌, drop,
}
use gowim.Bytes.{Bytes, u16_at, u32_at, u64_at, slice}
use gowim.Rose.{Tree, node, Forest, nil, cons}
use gowim.Wim.Resource.{has_flag}
use gowim.Wim.Security.{align_up8}
use gowim.Wim.Graft.{to_int32}
use gowim.Wim.Tree.Entry.{DirEntry, EntryInfo, Stream, is_directory}

abbrev pub dir_entry_fixed_size : ℕ
dir_entry_fixed_size = 102

abbrev pub extra_stream_fixed_size : ℕ
extra_stream_fixed_size = 38

abbrev pub file_attribute_reparse_point : ℕ
file_attribute_reparse_point = 0x400

abbrev pub max_dentry_tree_depth : ℕ
max_dentry_tree_depth = 16384

-- The errors, by their causes; `panics` is a slice out of its bounds. `out_of_fuel` stands for a
-- loop that is not done within the rounds given.
pub data DentryError : Type 0 where
  length_out_of_bounds shorter_than_fixed overruns odd_name too_small_for_names : DentryError
  stream_out_of_bounds bad_stream_length odd_stream_name stream_name_overruns : DentryError
  too_deep panics out_of_fuel : DentryError

-- `dentryMinLenWithNames`.
unfoldable pub min_len_with_names : ℕ → ℕ → ℕ
min_len_with_names name_nb short_name_nb =
    dir_entry_fixed_size
    + (if name_nb == 0 then 0 else name_nb + 2)
    + (if short_name_nb == 0 then 0 else short_name_nb + 2)

-- `alignUp8Int`.
unfoldable pub align_up8_int : ℕ → ℕ
align_up8_int n = (n + 7) / 8 * 8

-- One of the two names: its bytes from `q` on, if it has any, and where `q` is behind it.
unfoldable pub name_at : Bytes → ℕ → ℕ → Bytes
name_at p q nb = if nb == 0 then [] else slice p q nb

unfoldable pub behind_name : ℕ → ℕ → ℕ
behind_name q nb = if nb == 0 then q else q + nb + 2

-- The extra data between the names and the end of the entry.
unfoldable pub extra_at : Bytes → ℕ → ℕ → Bytes
extra_at p q length = if ltb q length then slice p q (length - q) else []

-- The entry but for its extra streams.
unfoldable pub entry_at : Bytes → ℕ → EntryInfo
entry_at p length =
    let attributes = u32_at p 0x08 in
    let reparse = has_flag attributes file_attribute_reparse_point in
    let name_nb = u16_at p 0x64 in
    let short_nb = u16_at p 0x62 in
    let q = behind_name dir_entry_fixed_size name_nb in
    let q' = align_up8_int (behind_name q short_nb) in
    record {
      attributes = attributes;
      security_id = to_int32 (u32_at p 0x0c);
      creation_time = u64_at p 0x28;
      last_access_time = u64_at p 0x30;
      last_write_time = u64_at p 0x38;
      unknown_0x54 = u32_at p 0x54;
      reparse_tag = if reparse then u32_at p 0x58 else 0;
      reparse_reserved = if reparse then u16_at p 0x5c else 0;
      reparse_flags = if reparse then u16_at p 0x5e else 0;
      hard_link_group_id = if reparse then 0 else u64_at p 0x58;
      name = name_at p dir_entry_fixed_size name_nb;
      short_name = name_at p q short_nb;
      streams = (record { name = []; hash = slice p 0x40 20 }) ∷ [];
      extra = extra_at p q' length;
    }

-- The name of an extra stream whose entry of length `slen` starts `sp`.
unfoldable pub stream_name : Bytes → ℕ → Result DentryError Bytes
stream_name sp slen =
    let nb = u16_at sp 36 in
    if nb == 0
    then ok []
    else if not (nb % 2 == 0)
    then err odd_stream_name
    else if ltb slen (extra_stream_fixed_size + nb)
    then err stream_name_overruns
    else if ltb (length sp) (extra_stream_fixed_size + nb)
    then err panics
    else ok (slice sp extra_stream_fixed_size nb)

-- The loop over the extra streams, with the rounds left: the streams, and the offset behind them.
unfoldable pub parse_streams : ℕ → Bytes → ℕ → Result DentryError (List Stream × ℕ)
unfolding stream_name align_up8
parse_streams zero buf off = ok ([], off)
parse_streams (suc n) buf off =
    let sp = drop off buf in
    let slen = align_up8 (u64_at sp 0) in
    let rest = do
      name ← stream_name sp slen
      (ss, next) ← parse_streams n buf ((off + slen) % 2 ^ 64)
      ok ((record { name = name; hash = slice sp 16 20 }) ∷ ss, next)
    in if ltb (length buf) ((off + extra_stream_fixed_size) % 2 ^ 64)
      then err stream_out_of_bounds
      else if ltb slen extra_stream_fixed_size || ltb (length buf) ((off + slen) % 2 ^ 64)
      then err bad_stream_length
      else rest

-- An entry, the offset of its children (0 for none), and the offset behind it and its streams.
pub record Parsed : Type 0 where
  pub info : EntryInfo
  pub subdir_offset : ℕ
  pub next : ℕ

abbrev pub with_streams : EntryInfo → List Stream → EntryInfo
with_streams i ss = record i { streams = i.streams ++ ss }

-- `some` of the entry, or `none` at the end of the directory.
unfoldable pub parse_dir_entry : Bytes → ℕ → Result DentryError (Option Parsed)
unfolding align_up8
parse_dir_entry buf off =
    let p = drop off buf in
    let l = align_up8 (u64_at p 0) in
    let end = (off + l) % 2 ^ 64 in
    let name_nb = u16_at p 0x64 in
    let short_nb = u16_at p 0x62 in
    let body = do
      (ss, next) ← parse_streams (u16_at p 0x60) buf end
      ok (
          some (record {
            info = with_streams (entry_at p l) ss;
            subdir_offset = u64_at p 0x10;
            next = next;
          }))
    in if ltb (length buf) ((off + 8) % 2 ^ 64) || ltb ((off + 8) % 2 ^ 64) off
      then err length_out_of_bounds
      else if leb l 8
      then ok none
      else if ltb l dir_entry_fixed_size
      then err shorter_than_fixed
      else if ltb (length buf) end || ltb end off
      then err overruns
      else if not (short_nb % 2 == 0) || not (name_nb % 2 == 0)
      then err odd_name
      else if ltb l (min_len_with_names name_nb short_nb)
      then err too_small_for_names
      else body
