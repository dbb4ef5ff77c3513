-- ===== src/Wim/Dentry/Write.antt =====
-- wim/dentry_write.go: an entry in bytes, and the tree laid out in the order of wimlib.
use gowim.Base.{
  ℕ, ◌+◌, ◌-◌, ◌%◌, ◌^◌, Bool, true, false, not, ◌||◌, List, [], ◌∷◌, ◌++◌, length, ltb, ◌==◌,
  if◌then◌else◌, replicate, Result, ok, err,
}
use gowim.Bytes.{Bytes, bytes2, bytes4, bytes8, write_at}
use gowim.Wim.Resource.{has_flag}
use gowim.Wim.Security.{align_up8}
use gowim.Wim.Tree.Entry.{EntryInfo, Stream, SecurityId, no_security, index, other}
use gowim.Wim.Dentry.{
  dir_entry_fixed_size, extra_stream_fixed_size, file_attribute_reparse_point, min_len_with_names,
}

pub data WriteError : Type 0 where
  odd_name name_too_long no_root : WriteError

-- `usesExtraStreams`: more than one stream, or one with a name.
unfoldable pub uses_extra_streams : List Stream → Bool
uses_extra_streams [] = false
uses_extra_streams (s ∷ []) = not (length s.name == 0)
uses_extra_streams (s ∷ t ∷ ss) = true

-- `extraStreamsToWrite` of an entry that uses extra streams: all but an unnamed first one.
unfoldable pub beyond_first : List Stream → List Stream
beyond_first [] = []
beyond_first (s ∷ ss) = if length s.name == 0 then ss else s ∷ ss

unfoldable pub extra_streams_to_write : List Stream → List Stream
unfolding uses_extra_streams beyond_first
extra_streams_to_write ss = if uses_extra_streams ss then beyond_first ss else []

-- The hash that `appendDentry` puts into the fixed part: that of the first stream if it is unnamed.
unfoldable pub written_hash : List Stream → Bytes
written_hash [] = replicate 20 0
written_hash (s ∷ ss) = if length s.name == 0 then s.hash else replicate 20 0

-- The length of one extra stream's entry.
unfoldable pub stream_len : Stream → ℕ
unfolding align_up8
stream_len s =
    align_up8 (extra_stream_fixed_size + (if length s.name == 0 then 0 else length s.name + 2))

unfoldable pub streams_len : List Stream → ℕ
streams_len [] = 0
streams_len (s ∷ ss) = stream_len s + streams_len ss

-- The length of an entry with its extra streams.
unfoldable pub entry_len : EntryInfo → ℕ
unfolding align_up8 extra_streams_to_write
entry_len i =
    align_up8 (min_len_with_names (length i.name) (length i.short_name))
    + align_up8 (length i.extra)
    + streams_len (extra_streams_to_write i.streams)

-- `outLen`.
unfoldable pub out_len : EntryInfo → ℕ
out_len i = entry_len i % 2 ^ 64

-- A name and its terminator, if it is not empty.
unfoldable pub name_bytes : Bytes → Bytes
name_bytes [] = []
name_bytes (x ∷ name) = (x ∷ name) ++ (0 ∷ 0 ∷ [])

-- `padTo8`, of what stands from `start` on.
unfoldable pub pad_to8 : Bytes → Bytes
pad_to8 b = b ++ replicate ((8 - length b % 8) % 8) 0

-- `uint32(d.SecurityID)`.
unfoldable pub security_bits : SecurityId → ℕ
security_bits no_security = 2 ^ 32 - 1
security_bits (index n) = n
security_bits (other n) = 2 ^ 32 - 2 - n

-- `appendExtraStream`: the length is put in when the entry is complete.
unfoldable pub stream_bytes : Stream → Bytes
unfolding name_bytes pad_to8
stream_bytes s =
    let f0 = write_at (replicate extra_stream_fixed_size 0) 16 s.hash in
    let fixed = write_at f0 36 (bytes2 (length s.name)) in
    let padded = pad_to8 (fixed ++ name_bytes s.name) in write_at padded 0 (bytes8 (length padded))

unfoldable pub all_stream_bytes : List Stream → Bytes
all_stream_bytes [] = []
all_stream_bytes (s ∷ ss) = stream_bytes s ++ all_stream_bytes ss

-- The array `fixed` of `appendDentry`, with the hash and the number of extra streams.
unfoldable pub fixed_from : EntryInfo → ℕ → Bytes → ℕ → Bytes
fixed_from i subdir_offset hash n =
    let f0 = replicate dir_entry_fixed_size 0 in
    let f1 = write_at f0 0x08 (bytes4 i.attributes) in
    let f2 = write_at f1 0x0c (bytes4 (security_bits i.security_id)) in
    let f3 = write_at f2 0x10 (bytes8 subdir_offset) in
    let f4 = write_at f3 0x28 (bytes8 i.creation_time) in
    let f5 = write_at f4 0x30 (bytes8 i.last_access_time) in
    let f6 = write_at f5 0x38 (bytes8 i.last_write_time) in
    let f7 = write_at f6 0x54 (bytes4 i.unknown_0x54) in
    let union =
      if has_flag i.attributes file_attribute_reparse_point
      then bytes4 i.reparse_tag ++ (bytes2 i.reparse_reserved ++ bytes2 i.reparse_flags)
      else bytes8 i.hard_link_group_id in
    let f8 = write_at f7 0x58 union in
    let f9 = write_at f8 0x40 hash in
    let f10 = write_at f9 0x60 (bytes2 n) in
    let f11 = write_at f10 0x62 (bytes2 (length i.short_name)) in
    write_at f11 0x64 (bytes2 (length i.name))

unfoldable pub fixed_bytes : EntryInfo → ℕ → Bytes
fixed_bytes i subdir_offset =
    fixed_from i subdir_offset (written_hash i.streams) (length (extra_streams_to_write i.streams))

-- What the `length` field of an entry covers.
unfoldable pub body_bytes : EntryInfo → ℕ → Bytes
unfolding pad_to8 name_bytes
body_bytes i subdir_offset =
    let names = name_bytes i.name ++ name_bytes i.short_name in
    let named = pad_to8 (fixed_bytes i subdir_offset ++ names) in
    let whole = if length i.extra == 0 then named else pad_to8 (named ++ i.extra) in
    write_at whole 0 (bytes8 (length whole))

-- What `appendDentry` appends to `dst`.
unfoldable pub append_dentry : EntryInfo → ℕ → Bytes → Result WriteError Bytes
append_dentry i subdir_offset dst =
    if not (length i.name % 2 == 0) || not (length i.short_name % 2 == 0)
    then err odd_name
    else if ltb 0xffff (length i.name) || ltb 0xffff (length i.short_name)
    then err name_too_long
    else ok
        (dst ++ (body_bytes i subdir_offset ++ all_stream_bytes (extra_streams_to_write i.streams)))
