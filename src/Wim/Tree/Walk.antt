-- ===== src/Wim/Tree/Walk.antt =====
-- The methods that follow a path of components: `Lookup`, `ReadDir`, `Add`, `AttachAt`, `Remove`.
pub mod Atomic
pub mod Lookup
mod Steps
pub mod Frame
pub mod Placed
pub mod Removed
use gowim.Base.{
  ℕ, Bool, true, false, not, List, [], ◌∷◌, Option, none, some, if◌then◌else◌, Result, ok, err,
  ◌>>=◌,
}
use gowim.Bytes.{Bytes}
use gowim.Text.{Text, string_to_utf16le, split_path}
use gowim.Rose.{
  Tree, node, Forest, nil, value, children, with_children, snoc, find, replace, remove,
}
use gowim.Wim.Tree.Entry.{
  DirEntry, EntryInfo, Stream, no_security, is_directory, has_name, child, new_directory, zero_info,
}

-- `not_found` is `ErrNotFound`.
pub data TreeError : Type 0 where
  empty_path not_found not_a_directory is_a_directory already_exists : TreeError

unfoldable pub lookup_from : (ℕ → ℕ) → List Text → DirEntry → Result TreeError DirEntry
lookup_from fold [] d = ok d
lookup_from fold (n ∷ ns) d =
    if not (is_directory (value d))
    then err not_found
    else elim (child fold n d) [ none ↦ err not_found | some c ↦ lookup_from fold ns c ]

unfoldable pub lookup : (ℕ → ℕ) → Text → DirEntry → Result TreeError DirEntry
unfolding lookup_from
lookup fold path d = lookup_from fold (split_path path) d

unfoldable pub read_dir : (ℕ → ℕ) → Text → DirEntry → Result TreeError (Forest EntryInfo)
unfolding lookup
read_dir fold path d = do
  entry ← lookup fold path d
  if not (is_directory (value entry)) then err not_a_directory else ok (children entry)

-- A step on the directory that holds the last component of a path: the directory after it, and
-- the entry it made or its error.
abbrev pub LeafStep : Type 0
LeafStep = Text → DirEntry → DirEntry × Result TreeError DirEntry

-- The loop over `components[:len(components)-1]` that creates missing directories, as `Add` and
-- `AttachAt` have it, with the step on the last component behind it.
unfoldable pub walk_creating :
    (ℕ → ℕ) → LeafStep → List Text → DirEntry → DirEntry × Result TreeError DirEntry
walk_creating fold step [] d = (d, err empty_path)
walk_creating fold step (n ∷ []) d = step n d
walk_creating fold step (n ∷ m ∷ ns) d =
    let created = walk_creating fold step (m ∷ ns) (new_directory n) in
    elim (child fold n d) [
      | none ↦ (with_children d (snoc (children d) created.0), created.1)
      | some c ↦
          if not (is_directory (value c))
          then (d, err not_a_directory)
          else let (c', r) = walk_creating fold step (m ∷ ns) c in
            (with_children d (replace (has_name fold n) c' (children d)), r)
    ]

-- What `Add` does at the last component.
abbrev pub new_file : Text → Bytes → DirEntry
new_file name hash =
    node
      (record zero_info {
        security_id = no_security;
        name = string_to_utf16le name;
        streams = (record { name = []; hash = hash }) ∷ [];
      })
      nil

abbrev pub set_hash : Bytes → DirEntry → DirEntry
set_hash hash (node i cs) =
    node (record i { streams = (record { name = []; hash = hash }) ∷ [] }) cs

unfoldable pub add_leaf : (ℕ → ℕ) → Bytes → LeafStep
add_leaf fold hash n d = elim (child fold n d) [
  | none ↦ (with_children d (snoc (children d) (new_file n hash)), ok (new_file n hash))
  | some leaf ↦ if is_directory (value leaf) then (d, err is_a_directory) else (
    with_children d (replace (has_name fold n) (set_hash hash leaf) (children d)),
    ok (set_hash hash leaf),
  )
]

unfoldable pub add : (ℕ → ℕ) → Text → Bytes → DirEntry → DirEntry × Result TreeError DirEntry
unfolding walk_creating add_leaf
add fold path hash d = walk_creating fold (add_leaf fold hash) (split_path path) d

abbrev pub renamed : Text → DirEntry → DirEntry
renamed n t = node (record (value t) { name = string_to_utf16le n }) (children t)

-- The last step of `AttachAt`, with the entry that `node` points to once its name is set.
unfoldable pub attach_leaf : (ℕ → ℕ) → DirEntry → LeafStep
attach_leaf fold subtree n d = elim (child fold n d) [
  | none ↦ (with_children d (snoc (children d) (renamed n subtree)), ok (renamed n subtree))
  | some _ ↦ (d, err already_exists)
]

abbrev pub only_error : Result TreeError DirEntry → Result TreeError (Unit {0})
only_error (ok a) = ok tt
only_error (err e) = err e

-- `AttachAt` returns the error alone.
unfoldable pub attach_at :
    (ℕ → ℕ) → Text → DirEntry → DirEntry → DirEntry × Result TreeError (Unit {0})
unfolding walk_creating attach_leaf
attach_at fold path subtree root =
    let (root', r) = walk_creating fold (attach_leaf fold subtree) (split_path path) root in
    (root', only_error r)

-- `Remove` asks of no component that it is a directory.
unfoldable pub remove_from : (ℕ → ℕ) → List Text → DirEntry → DirEntry × Result TreeError (Unit {0})
remove_from fold [] d = (d, err empty_path)
remove_from fold (n ∷ []) d = elim (child fold n d) [
  | none ↦ (d, err not_found)
  | some _ ↦ (with_children d (remove (has_name fold n) (children d)), ok tt)
]
remove_from fold (n ∷ m ∷ ns) d = elim (child fold n d) [
  | none ↦ (d, err not_found)
  | some c ↦
      let (c', r) = remove_from fold (m ∷ ns) c in
      (with_children d (replace (has_name fold n) c' (children d)), r)
]

unfoldable pub remove_at : (ℕ → ℕ) → Text → DirEntry → DirEntry × Result TreeError (Unit {0})
unfolding remove_from
remove_at fold path d = remove_from fold (split_path path) d
