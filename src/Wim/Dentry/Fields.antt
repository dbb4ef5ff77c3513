-- ===== src/Wim/Dentry/Fields.antt =====
-- The fixed part of an entry, read field by field.
use gowim.Base.{
  ℕ, ◌^◌, ◌<◌, ◌≡◌, ◌⊎◌, inl, inr, refl, ap, ◌∙◌, arith, true, false, [], ◌∷◌, ◌++◌, length, drop,
}
use gowim.Bytes.{
  Bytes, expand, write_at, bytes8, slice, u16_at, u32_at, u64_at, join2-byte, join4-byte,
  join8-byte,
}
use gowim.Wim.Resource.{has_flag}
use gowim.Wim.Graft.{to_int32}
use gowim.Wim.Tree.Entry.{EntryInfo}
use gowim.Wim.Dentry.{
  entry_at, name_at, behind_name, extra_at, align_up8_int, file_attribute_reparse_point,
}
use gowim.Wim.Dentry.Write.{fixed_from, security_bits}
use gowim.Wim.Dentry.Fits.{FitsNumbers, to_int32-security_bits, security_bits-lt}

-- An entry of length `l` in bytes: its fixed part, and `t` behind it.
abbrev pub laid_out : EntryInfo → ℕ → Bytes → ℕ → Bytes → ℕ → Bytes
laid_out i subdir g n t l = write_at (fixed_from i subdir (expand 20 g) n ++ t) 0 (bytes8 l)

-- The bytes `p` hold the numbers of an entry in the places of its fields.
pub record HasNumbers (p : Bytes) (i : EntryInfo) : Type 0 where
  attributes_is : u32_at p 0x08 ≡ i.attributes
  security_is : to_int32 (u32_at p 0x0c) ≡ i.security_id
  creation_is : u64_at p 0x28 ≡ i.creation_time
  access_is : u64_at p 0x30 ≡ i.last_access_time
  write_is : u64_at p 0x38 ≡ i.last_write_time
  unknown_is : u32_at p 0x54 ≡ i.unknown_0x54
  union_is :
      ((has_flag i.attributes file_attribute_reparse_point ≡ true)
        × (i.hard_link_group_id ≡ 0)
        × (u32_at p 0x58 ≡ i.reparse_tag)
        × (u16_at p 0x5c ≡ i.reparse_reserved)
        × (u16_at p 0x5e ≡ i.reparse_flags))
      ⊎ ((has_flag i.attributes file_attribute_reparse_point ≡ false)
          × (u64_at p 0x58 ≡ i.hard_link_group_id)
          × (i.reparse_tag ≡ 0)
          × (i.reparse_reserved ≡ 0)
          × (i.reparse_flags ≡ 0))

-- The entry that is read from them has these numbers.
pub entry_at-numbers :
    (p : Bytes) (i : EntryInfo) (l m k : ℕ)
    → HasNumbers p i
    → u16_at p 0x64 ≡ m
    → u16_at p 0x62 ≡ k
    → entry_at p l ≡ record i {
      name = name_at p 102 m;
      short_name = name_at p (behind_name 102 m) k;
      streams = (record { name = []; hash = slice p 0x40 20 }) ∷ [];
      extra = extra_at p (align_up8_int (behind_name (behind_name 102 m) k)) l;
    }
unfolding entry_at
entry_at-numbers p i l m k h em ek = elim h.union_is [
  | inl (flag, none_is, tag, reserved, flags) ↦
      rw
        (
          entry_at, h.attributes_is, flag, em, ek, h.security_is, h.creation_is, h.access_is,
          h.write_is, h.unknown_is, tag, reserved, flags, none_is,
        )
        refl
  | inr (flag, group, no_tag, no_reserved, no_flags) ↦
      rw
        (
          entry_at, h.attributes_is, flag, em, ek, h.security_is, h.creation_is, h.access_is,
          h.write_is, h.unknown_is, group, no_tag, no_reserved, no_flags,
        )
        refl
]

module _ (i : EntryInfo) (subdir : ℕ) (g : Bytes) (n : ℕ) (t : Bytes) (l : ℕ) where
  pub drop-laid_out : drop 102 (laid_out i subdir g n t l) ≡ t
  unfolding fixed_from
  drop-laid_out = ground arith

  pub length_field : l < 2 ^ 64 → u64_at (laid_out i subdir g n t l) 0 ≡ l
  unfolding fixed_from
  length_field h = ground (arith, join8-byte l h)

  pub count_field : n < 2 ^ 16 → u16_at (laid_out i subdir g n t l) 0x60 ≡ n
  unfolding fixed_from
  count_field h = ground (arith, join2-byte n h)

  pub short_name_field :
      length i.short_name < 2 ^ 16 → u16_at (laid_out i subdir g n t l) 0x62 ≡ length i.short_name
  unfolding fixed_from
  short_name_field h = ground (arith, join2-byte (length i.short_name) h)

  pub name_field : length i.name < 2 ^ 16 → u16_at (laid_out i subdir g n t l) 0x64 ≡ length i.name
  unfolding fixed_from
  name_field h = ground (arith, join2-byte (length i.name) h)

  pub subdir_field : subdir < 2 ^ 64 → u64_at (laid_out i subdir g n t l) 0x10 ≡ subdir
  unfolding fixed_from
  subdir_field h = ground (arith, join8-byte subdir h)

  pub hash_field : slice (laid_out i subdir g n t l) 0x40 20 ≡ expand 20 g
  unfolding fixed_from
  hash_field = ground arith

  attributes_field : i.attributes < 2 ^ 32 → u32_at (laid_out i subdir g n t l) 0x08 ≡ i.attributes
  unfolding fixed_from
  attributes_field h = ground (arith, join4-byte i.attributes h)

  security_field :
      security_bits i.security_id < 2 ^ 32
      → u32_at (laid_out i subdir g n t l) 0x0c ≡ security_bits i.security_id
  unfolding fixed_from
  security_field h = ground (arith, join4-byte (security_bits i.security_id) h)

  creation_field :
      i.creation_time < 2 ^ 64 → u64_at (laid_out i subdir g n t l) 0x28 ≡ i.creation_time
  unfolding fixed_from
  creation_field h = ground (arith, join8-byte i.creation_time h)

  access_field :
      i.last_access_time < 2 ^ 64 → u64_at (laid_out i subdir g n t l) 0x30 ≡ i.last_access_time
  unfolding fixed_from
  access_field h = ground (arith, join8-byte i.last_access_time h)

  write_field :
      i.last_write_time < 2 ^ 64 → u64_at (laid_out i subdir g n t l) 0x38 ≡ i.last_write_time
  unfolding fixed_from
  write_field h = ground (arith, join8-byte i.last_write_time h)

  unknown_field : i.unknown_0x54 < 2 ^ 32 → u32_at (laid_out i subdir g n t l) 0x54 ≡ i.unknown_0x54
  unfolding fixed_from
  unknown_field h = ground (arith, join4-byte i.unknown_0x54 h)

  reparse_fields :
      has_flag i.attributes file_attribute_reparse_point ≡ true
      → FitsNumbers i
      → (u32_at (laid_out i subdir g n t l) 0x58 ≡ i.reparse_tag)
        × (u16_at (laid_out i subdir g n t l) 0x5c ≡ i.reparse_reserved)
        × (u16_at (laid_out i subdir g n t l) 0x5e ≡ i.reparse_flags)
  unfolding fixed_from
  reparse_fields h f = ground (
    arith,
    join4-byte i.reparse_tag f.tag_fits,
    join2-byte i.reparse_reserved f.reserved_fits,
    join2-byte i.reparse_flags f.flags_fit,
  )

  group_field :
      has_flag i.attributes file_attribute_reparse_point ≡ false
      → FitsNumbers i
      → u64_at (laid_out i subdir g n t l) 0x58 ≡ i.hard_link_group_id
  unfolding fixed_from
  group_field h f = ground (arith, join8-byte i.hard_link_group_id f.group_fits)

  pub laid_out-HasNumbers : FitsNumbers i → HasNumbers (laid_out i subdir g n t l) i
  laid_out-HasNumbers f = record {
    attributes_is = attributes_field f.attributes_fit;
    security_is =
        ap to_int32 (security_field (security_bits-lt i.security_id f.security_fits))
        ∙ to_int32-security_bits i.security_id f.security_fits;
    creation_is = creation_field f.creation_fits;
    access_is = access_field f.access_fits;
    write_is = write_field f.write_fits;
    unknown_is = unknown_field f.unknown_fits;
    union_is = elim f.union_shared [
      | inl (flag, no_group) ↦
          let (tag, reserved, flags) = reparse_fields flag f in
          inl (flag, no_group, tag, reserved, flags)
      | inr (flag, no_tag, no_reserved, no_flags) ↦
          inr (flag, group_field flag f, no_tag, no_reserved, no_flags)
    ];
  }
