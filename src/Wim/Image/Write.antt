-- ===== src/Wim/Image/Write.antt =====
-- wim/dentry_write.go and wim/metadata.go: the offsets that directories get, in the order of wimlib, and
-- the tree in bytes. The map from the entries to their offsets is a tree with an offset at each node.
use gowim.Base.{
  ℕ, ◌+◌, ◌%◌, ◌^◌, not, ◌&&◌, [], ◌++◌, ◌==◌, if◌then◌else◌, replicate, Option, none, some, Result,
  ok, err, ◌>>=◌,
}
use gowim.Bytes.{Bytes}
use gowim.Rose.{Tree, node, Forest, nil, cons}
use gowim.Wim.Security.{Descriptors, encoded_len, append_security_data}
use gowim.Wim.Tree.Entry.{DirEntry, EntryInfo, is_directory}
use gowim.Wim.Dentry.Write.{WriteError, no_root, out_len, append_dentry}
use gowim.Wim.Image.{ImageMetadata}

-- What the closure `walk` of `assignSubdirOffsets` adds to the cursor for the children of a directory.
unfoldable pub behind_children : Forest EntryInfo → ℕ → ℕ
behind_children nil cursor = (cursor + 8) % 2 ^ 64
behind_children (cons (node a cs) ts) cursor = behind_children ts ((cursor + out_len a) % 2 ^ 64)

-- What it makes of the cursor for one entry, and the offset that it gives the entry.
unfoldable pub walk_entry : EntryInfo → Forest EntryInfo → ℕ → ℕ
walk_entry a cs cursor = if is_directory a then behind_children cs cursor else cursor

unfoldable pub subdir_offset_of : ℕ → EntryInfo → ℕ → ℕ
subdir_offset_of base a cursor = if is_directory a then (cursor + base) % 2 ^ 64 else 0

-- The cursor behind all entries of a tree, which are visited parents first.
unfoldable mutual
  pub walk_tree : Tree EntryInfo → ℕ → ℕ
  walk_tree (node a cs) cursor = walk_forest cs (walk_entry a cs cursor)

  pub walk_forest : Forest EntryInfo → ℕ → ℕ
  walk_forest nil cursor = cursor
  walk_forest (cons t ts) cursor = walk_forest ts (walk_tree t cursor)

-- The offsets that they get.
unfoldable mutual
  pub tree_offsets : ℕ → Tree EntryInfo → ℕ → Tree (EntryInfo × ℕ)
  tree_offsets base (node a cs) cursor =
      node (a, subdir_offset_of base a cursor) (forest_offsets base cs (walk_entry a cs cursor))

  pub forest_offsets : ℕ → Forest EntryInfo → ℕ → Forest (EntryInfo × ℕ)
  forest_offsets base nil cursor = nil
  forest_offsets base (cons t ts) cursor =
      cons (tree_offsets base t cursor) (forest_offsets base ts (walk_tree t cursor))

-- `assignSubdirOffsets`: the root and its end marker come first.
abbrev pub first_cursor : DirEntry → ℕ
first_cursor (node a cs) = (out_len a + 8) % 2 ^ 64

unfoldable pub assign_subdir_offsets : DirEntry → ℕ → Tree (EntryInfo × ℕ) × ℕ
assign_subdir_offsets root base =
    (tree_offsets base root (first_cursor root), walk_tree root (first_cursor root))

-- The end-of-directory marker.
abbrev pub end_marker : Bytes
end_marker = replicate 8 0

-- The loop over the children of a directory.
unfoldable pub append_children : Forest (EntryInfo × ℕ) → Bytes → Result WriteError Bytes
append_children nil dst = ok dst
append_children (cons (node (a, off) cs) ts) dst = do
  dst' ← append_dentry a off dst
  append_children ts dst'

-- What the closure `walk` of `appendDirEntryTreeWithOffsets` writes for one entry.
unfoldable pub append_directory :
    EntryInfo → ℕ → Forest (EntryInfo × ℕ) → Bytes → Result WriteError Bytes
append_directory a off cs dst =
    if is_directory a && not (off == 0)
    then (do dst' ← append_children cs dst; ok (dst' ++ end_marker))
    else ok dst

unfoldable mutual
  pub append_walk : Tree (EntryInfo × ℕ) → Bytes → Result WriteError Bytes
  append_walk (node (a, off) cs) dst = do dst' ← append_directory a off cs dst; append_walks cs dst'

  pub append_walks : Forest (EntryInfo × ℕ) → Bytes → Result WriteError Bytes
  append_walks nil dst = ok dst
  append_walks (cons t ts) dst = do dst' ← append_walk t dst; append_walks ts dst'

-- `appendDirEntryTreeWithOffsets` of a root that is not nil.
unfoldable pub append_with_offsets : Tree (EntryInfo × ℕ) → Bytes → Result WriteError Bytes
append_with_offsets (node (a, off) cs) dst = do
  dst' ← append_dentry a off dst
  append_walk (node (a, off) cs) (dst' ++ end_marker)

-- `appendDirEntryTreeBased`, and `AppendDirEntryTree` with the base 0.
unfoldable pub append_tree_based : Option DirEntry → ℕ → Bytes → Result WriteError Bytes
append_tree_based none base dst = err no_root
append_tree_based (some root) base dst =
    append_with_offsets ((assign_subdir_offsets root base).0) dst

unfoldable pub append_dir_entry_tree : Option DirEntry → Bytes → Result WriteError Bytes
append_dir_entry_tree root dst = append_tree_based root 0 dst

abbrev pub security_or_empty : Option Descriptors → Descriptors
security_or_empty none = []
security_or_empty (some ds) = ds

-- `ImageMetadata.AppendTo`.
unfoldable pub append_metadata : ImageMetadata → Bytes → Result WriteError Bytes
append_metadata m dst =
    let ds = security_or_empty m.security in
    elim m.root [
      | none ↦ err no_root
      | some root ↦
          append_with_offsets ((assign_subdir_offsets root (encoded_len ds)).0)
            (append_security_data ds dst)
    ]
