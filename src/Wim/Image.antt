-- ===== src/Wim/Image.antt =====
-- wim/dentry.go and wim/metadata.go: an image's metadata, the security data and behind it the tree of
-- directory entries, in which each directory has the offset of its children. A loop over siblings and
-- a descent take one unit of fuel each.
pub mod Write
pub mod Regions
pub mod Written
pub mod Siblings
pub mod RoundTrip
pub mod Order
pub mod Loop
use gowim.Base.{
  ℕ, zero, suc, ◌+◌, Bool, true, false, not, ◌&&◌, leb, ◌==◌, Option, none, some, Result, ok, err,
  ◌>>=◌,
}
use gowim.Bytes.{Bytes}
use gowim.Rose.{Tree, node, Forest, nil, cons}
use gowim.Wim.Security.{Descriptors, SecurityError, parse_security_data}
use gowim.Wim.Tree.Entry.{DirEntry, EntryInfo, is_directory}
use gowim.Wim.Dentry.{
  DentryError, too_deep, out_of_fuel, max_dentry_tree_depth, Parsed, parse_dir_entry,
}

-- Whether the children of an entry are read: it is a directory and has an offset of theirs.
unfoldable pub has_children : Parsed → Bool
has_children p = not (p.subdir_offset == 0) && is_directory p.info

-- The loop of `parseDirEntryTreeChildren` at `cur`.
unfoldable pub parse_siblings : ℕ → Bytes → ℕ → ℕ → Result DentryError (Forest EntryInfo)
parse_siblings zero buf depth cur = err out_of_fuel
parse_siblings (suc n) buf depth cur = do
  e ← parse_dir_entry buf cur
  elim e [
    | none ↦ ok nil
    | some p ↦ do
      cs ← elim (has_children p) [
        | false ↦ ok nil
        | true ↦ elim (leb max_dentry_tree_depth (depth + 1)) [
          | true ↦ err too_deep
          | false ↦ parse_siblings n buf (depth + 1) p.subdir_offset
        ]
      ]
      rest ← parse_siblings n buf depth p.next
      ok (cons (node p.info cs) rest)
  ]

-- `ParseDirEntryTree`; `none` is the nil root of an end-of-directory marker.
unfoldable pub parse_dir_entry_tree : ℕ → Bytes → ℕ → Result DentryError (Option DirEntry)
parse_dir_entry_tree n buf root_offset = do
  e ← parse_dir_entry buf root_offset
  elim e [
    | none ↦ ok none
    | some p ↦ do
      cs ← elim (has_children p) [ false ↦ ok nil | true ↦ parse_siblings n buf 0 p.subdir_offset ]
      ok (some (node p.info cs))
  ]

-- `security` is none for the nil pointer.
pub record ImageMetadata : Type 0 where
  pub security : Option Descriptors
  pub root : Option DirEntry

pub data MetadataError : Type 0 where
  security_error : SecurityError → MetadataError
  dentry_error : DentryError → MetadataError

unfoldable pub parse_image_metadata : ℕ → Bytes → Result MetadataError ImageMetadata
parse_image_metadata n buf = elim (parse_security_data buf) [
  | err e ↦ err (security_error e)
  | ok (sd, sd_len) ↦ elim (parse_dir_entry_tree n buf sd_len) [
    | err e ↦ err (dentry_error e)
    | ok root ↦ ok (record { security = some sd; root = root })
  ]
]
