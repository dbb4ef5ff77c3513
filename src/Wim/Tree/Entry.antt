-- ===== src/Wim/Tree/Entry.antt =====
-- Directory entries and the search among the children of one.
use gowim.Base.{ℕ, Bool, List, [], ◌∷◌, Option, replicate}
use gowim.Bytes.{Bytes}
use gowim.Text.{Text, utf16le_to_string, string_to_utf16le, equal_fold}
use gowim.Rose.{Tree, node, nil, children, find}
use gowim.Wim.Resource.{has_flag}

-- An int32: `NoSecurity` is -1, and `index` the numbers from 0 on; `other n` is -(n + 2).
pub data SecurityId : Type 0 where
  no_security : SecurityId
  index : ℕ → SecurityId
  other : ℕ → SecurityId

pub record Stream : Type 0 where
  pub name : Bytes
  pub hash : Bytes

pub record EntryInfo : Type 0 where
  pub attributes : ℕ
  pub security_id : SecurityId
  pub creation_time : ℕ
  pub last_access_time : ℕ
  pub last_write_time : ℕ
  pub unknown_0x54 : ℕ
  pub reparse_tag : ℕ
  pub reparse_reserved : ℕ
  pub reparse_flags : ℕ
  pub hard_link_group_id : ℕ
  pub name : Bytes
  pub short_name : Bytes
  pub streams : List Stream
  pub extra : Bytes

abbrev pub DirEntry : Type 0
DirEntry = Tree EntryInfo

abbrev pub file_attribute_directory : ℕ
file_attribute_directory = 0x10

-- An entry with the fields that a composite literal leaves out.
abbrev pub zero_info : EntryInfo
zero_info = record {
  attributes = 0;
  security_id = index 0;
  creation_time = 0;
  last_access_time = 0;
  last_write_time = 0;
  unknown_0x54 = 0;
  reparse_tag = 0;
  reparse_reserved = 0;
  reparse_flags = 0;
  hard_link_group_id = 0;
  name = [];
  short_name = [];
  streams = [];
  extra = [];
}

unfoldable pub is_directory : EntryInfo → Bool
unfolding has_flag
is_directory i = has_flag i.attributes file_attribute_directory

unfoldable pub name_utf8 : EntryInfo → Text
unfolding utf16le_to_string
name_utf8 i = utf16le_to_string i.name

unfoldable pub main_hash : EntryInfo → Bytes
main_hash i = elim i.streams [ [] ↦ replicate 20 0 | s ∷ ss ↦ s.hash ]

-- Whether the entry is what `Child(name)` looks for.
unfoldable pub has_name : (ℕ → ℕ) → Text → EntryInfo → Bool
unfolding name_utf8 equal_fold
has_name fold name i = equal_fold fold (name_utf8 i) name

unfoldable pub child : (ℕ → ℕ) → Text → DirEntry → Option DirEntry
unfolding has_name find
child fold name d = find (has_name fold name) (children d)

-- The directory that a walk creates for a missing component.
unfoldable pub new_directory : Text → DirEntry
unfolding string_to_utf16le
new_directory name =
    node
      (record zero_info {
        attributes = file_attribute_directory;
        security_id = no_security;
        name = string_to_utf16le name;
      })
      nil
