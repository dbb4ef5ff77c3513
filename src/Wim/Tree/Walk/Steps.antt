-- ===== src/Wim/Tree/Walk/Steps.antt =====
-- One round of each walk, on a directory whose search is known.
use gowim.Base.{ℕ, true, false, List, ◌∷◌, none, some, Result, err, ◌≡◌, arith}
use gowim.Text.{Text}
use gowim.Rose.{node, Forest, value, snoc, find, replace}
use gowim.Wim.Tree.Entry.{DirEntry, EntryInfo, is_directory, has_name, child, new_directory}
use gowim.Wim.Tree.Walk.{
  TreeError, not_found, not_a_directory, LeafStep, lookup_from, walk_creating,
}

module _ (fold : ℕ → ℕ) (n : Text) (i : EntryInfo) (cs : Forest EntryInfo) where
  pub lookup_found :
      (ns : List Text) (c : DirEntry)
      → is_directory i ≡ true
      → find (has_name fold n) cs ≡ some c
      → lookup_from fold (n ∷ ns) (node i cs) ≡ lookup_from fold ns c
  unfolding lookup_from child
  lookup_found ns c dir here = rw (dir, here)

  pub lookup_gone :
      (ns : List Text)
      → find (has_name fold n) cs ≡ none
      → lookup_from fold (n ∷ ns) (node i cs) ≡ err not_found
  unfolding lookup_from child
  lookup_gone ns gone = ground arith

  pub lookup_in_file :
      (ns : List Text)
      → is_directory i ≡ false
      → lookup_from fold (n ∷ ns) (node i cs) ≡ err not_found
  unfolding lookup_from
  lookup_in_file ns dir = rw dir

module _ (fold : ℕ → ℕ) (step : LeafStep) (n m : Text) (ns : List Text) (i : EntryInfo)
    (cs : Forest EntryInfo) where
  abbrev pub Below : DirEntry → DirEntry × Result TreeError DirEntry
  Below c = walk_creating fold step (m ∷ ns) c

  pub walk_gone :
      find (has_name fold n) cs ≡ none
      → walk_creating fold step (n ∷ m ∷ ns) (node i cs)
        ≡ (node i (snoc cs (Below (new_directory n)).0), (Below (new_directory n)).1)
  unfolding walk_creating child
  walk_gone gone = rw (gone, walk_creating)

  pub walk_into :
      (c : DirEntry)
      → find (has_name fold n) cs ≡ some c
      → is_directory (value c) ≡ true
      → walk_creating fold step (n ∷ m ∷ ns) (node i cs)
        ≡ (node i (replace (has_name fold n) (Below c).0 cs), (Below c).1)
  unfolding walk_creating child
  walk_into c here dir = rw (here, walk_creating, dir)

  pub walk_blocked :
      (c : DirEntry)
      → find (has_name fold n) cs ≡ some c
      → is_directory (value c) ≡ false
      → walk_creating fold step (n ∷ m ∷ ns) (node i cs) ≡ (node i cs, err not_a_directory)
  unfolding walk_creating child
  walk_blocked c here dir = rw (here, walk_creating, dir)
