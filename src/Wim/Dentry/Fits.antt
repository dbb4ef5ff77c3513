-- ===== src/Wim/Dentry/Fits.antt =====
-- The entries that the on-disk form can hold.
use gowim.Base.{◌-◌, ◌%◌, ◌^◌, ◌<◌, ◌≤◌, ◌≡◌, ◌⊎◌, refl, arith, true, false, List, [], length, All}
use gowim.Bytes.{Bytes}
use gowim.Wim.Resource.{has_flag}
use gowim.Wim.Graft.{to_int32}
use gowim.Wim.Tree.Entry.{EntryInfo, Stream, SecurityId, no_security, index, other}
use gowim.Wim.Dentry.{file_attribute_reparse_point}
use gowim.Wim.Dentry.Write.{security_bits}

-- The range of an int32.
abbrev pub IsInt32 : SecurityId → Type 0
IsInt32 no_security = Unit {0}
IsInt32 (index n) = n < 2 ^ 31
IsInt32 (other n) = n < 2 ^ 31 - 1

pub to_int32-security_bits : (s : SecurityId) → IsInt32 s → to_int32 (security_bits s) ≡ s
unfolding to_int32 security_bits
to_int32-security_bits no_security h = refl
to_int32-security_bits (index n) h = ground arith
to_int32-security_bits (other n) h = ground arith

pub security_bits-lt : (s : SecurityId) → IsInt32 s → security_bits s < 2 ^ 32
unfolding security_bits
security_bits-lt no_security h = omega arith
security_bits-lt (index n) h = omega arith
security_bits-lt (other n) h = omega arith

-- A reparse point has no hard link group, and any other entry no reparse fields: they share bytes.
abbrev pub SharesUnion : EntryInfo → Type 0
SharesUnion i =
    ((has_flag i.attributes file_attribute_reparse_point ≡ true) × (i.hard_link_group_id ≡ 0))
    ⊎ ((has_flag i.attributes file_attribute_reparse_point ≡ false)
        × (i.reparse_tag ≡ 0)
        × (i.reparse_reserved ≡ 0)
        × (i.reparse_flags ≡ 0))

-- The numbers of an entry are in the range of their fields.
pub record FitsNumbers (i : EntryInfo) : Type 0 where
  pub attributes_fit : i.attributes < 2 ^ 32
  pub security_fits : IsInt32 i.security_id
  pub creation_fits : i.creation_time < 2 ^ 64
  pub access_fits : i.last_access_time < 2 ^ 64
  pub write_fits : i.last_write_time < 2 ^ 64
  pub unknown_fits : i.unknown_0x54 < 2 ^ 32
  pub tag_fits : i.reparse_tag < 2 ^ 32
  pub reserved_fits : i.reparse_reserved < 2 ^ 16
  pub flags_fit : i.reparse_flags < 2 ^ 16
  pub group_fits : i.hard_link_group_id < 2 ^ 64
  pub union_shared : SharesUnion i

-- A name of whole UTF-16 units, whose length its field can hold.
pub record FitsName (name : Bytes) : Type 0 where
  pub even : length name % 2 ≡ 0
  pub short : length name ≤ 0xffff

pub record FitsStream (s : Stream) : Type 0 where
  pub hash_length : length s.hash ≡ 20
  pub name_fits : FitsName s.name

-- The streams start with the unnamed one.
pub record FitsStreams (first : Stream) (more : List Stream) : Type 0 where
  pub unnamed : first.name ≡ []
  pub first_hash : length first.hash ≡ 20
  pub count_fits : length more < 2 ^ 16
  pub more_fit : All FitsStream more
