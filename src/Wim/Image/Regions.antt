-- ===== src/Wim/Image/Regions.antt =====
-- Where the entries of a tree stand: the children of a directory one behind the other with an end
-- marker, and behind them what the children have.
use gowim.Base.{
  ℕ, ◌+◌, ◌%◌, ◌^◌, ◌<◌, ◌≡◌, ◌⊎◌, refl, ◌∙◌, arith, true, false, [], ◌++◌, length, if◌then◌else◌,
  length-append,
}
use gowim.Bytes.{Bytes}
use gowim.Rose.{node, Forest, nil, cons}
use gowim.Wim.Tree.Entry.{EntryInfo, is_directory}
use gowim.Wim.Dentry.Write.{entry_len, out_len}
use gowim.Wim.Dentry.Entry.{FitsEntry, entry_bytes, length-entry_bytes}
use gowim.Wim.Image.Write.{
  behind_children, walk_entry, subdir_offset_of, walk_tree, walk_forest, end_marker,
}

-- The entry of a node at the depth `d` can have these children: any if it is a directory, else none.
abbrev pub FitsChildren : ℕ → EntryInfo → Forest EntryInfo → Type 0
FitsChildren d a cs =
    ((is_directory a ≡ true) × (d < 16384)) ⊎ ((is_directory a ≡ false) × (cs ≡ nil))

-- The entries fit and are not too deep, when the first ones are at the depth `d`.
unfoldable pub FitsForest : ℕ → Forest EntryInfo → Type 0
FitsForest d nil = Unit {0}
FitsForest d (cons (node a cs) ts) =
    FitsEntry a × FitsChildren (d + 1) a cs × FitsForest (d + 1) cs × FitsForest d ts

unfoldable pub entries_len : Forest EntryInfo → ℕ
entries_len nil = 0
entries_len (cons (node a cs) ts) = entry_len a + entries_len ts

-- The children of one entry, with their end marker.
unfoldable pub own_len : EntryInfo → Forest EntryInfo → ℕ
own_len a cs = if is_directory a then entries_len cs + 8 else 0

unfoldable pub regions_len : Forest EntryInfo → ℕ
regions_len nil = 0
regions_len (cons (node a cs) ts) = own_len a cs + regions_len cs + regions_len ts

unfoldable pub entries : ℕ → Forest EntryInfo → ℕ → Bytes
entries base nil c = []
entries base (cons (node a cs) ts) c =
    entry_bytes a (subdir_offset_of base a c) ++ entries base ts (walk_tree (node a cs) c)

-- The children of one entry in bytes.
unfoldable pub own_bytes : ℕ → EntryInfo → Forest EntryInfo → ℕ → Bytes
own_bytes base a cs c = if is_directory a then entries base cs c ++ end_marker else []

unfoldable pub regions : ℕ → Forest EntryInfo → ℕ → Bytes
regions base nil c = []
regions base (cons (node a cs) ts) c =
    let c1 = walk_entry a cs c in
    own_bytes base a cs c1 ++ (regions base cs c1 ++ regions base ts (walk_tree (node a cs) c))

behind_children-len :
    (ts : Forest EntryInfo) (c : ℕ)
    → c + entries_len ts + 8 < 2 ^ 64
    → behind_children ts c ≡ c + entries_len ts + 8
unfolding behind_children entries_len
behind_children-len nil c h = omega arith
behind_children-len (cons (node a cs) ts) c h =
    let e : (c + out_len a) % 2 ^ 64 ≡ c + entry_len a = unfold out_len in omega arith in
    rw e (behind_children-len ts (c + entry_len a) (omega arith) ∙ omega arith)

pub walk_entry-len :
    (a : EntryInfo) (cs : Forest EntryInfo) (c : ℕ)
    → c + own_len a cs < 2 ^ 64
    → walk_entry a cs c ≡ c + own_len a cs
unfolding walk_entry own_len
walk_entry-len a cs c h = ground (arith, behind_children-len cs c)

pub walk_forest-len :
    (ts : Forest EntryInfo) (c : ℕ)
    → c + regions_len ts < 2 ^ 64
    → walk_forest ts c ≡ c + regions_len ts
unfolding walk_forest regions_len
walk_forest-len nil c h = omega arith
walk_forest-len (cons (node a cs) ts) c h =
    let e1 = walk_entry-len a cs c (omega arith) in
    let e2 = walk_forest-len cs (c + own_len a cs) (omega arith) in
    let e3 = walk_forest-len ts (c + own_len a cs + regions_len cs) (omega arith) in
    rw (e1, e2, e3) (omega arith)

pub walk_tree-len :
    (a : EntryInfo) (cs : Forest EntryInfo) (c : ℕ)
    → c + own_len a cs + regions_len cs < 2 ^ 64
    → walk_tree (node a cs) c ≡ c + own_len a cs + regions_len cs
unfolding walk_tree
walk_tree-len a cs c h =
    rw (walk_entry-len a cs c (omega arith)) (walk_forest-len cs (c + own_len a cs) h)

pub length-entries :
    (base : ℕ) (ts : Forest EntryInfo) (c d : ℕ)
    → FitsForest d ts
    → length (entries base ts c) ≡ entries_len ts
unfolding entries entries_len FitsForest
length-entries base nil c d f = refl
length-entries base (cons (node a cs) ts) c d (f, k, fc, ft) = omega (
  arith,
  length-append (entry_bytes a (subdir_offset_of base a c))
      (entries base ts (walk_tree (node a cs) c)),
  length-entry_bytes a (subdir_offset_of base a c) f,
  length-entries base ts (walk_tree (node a cs) c) d ft,
)

pub length-own_bytes :
    (base : ℕ) (a : EntryInfo) (cs : Forest EntryInfo) (c d : ℕ)
    → FitsForest d cs
    → length (own_bytes base a cs c) ≡ own_len a cs
unfolding own_bytes own_len
length-own_bytes base a cs c d f =
    ground (arith, length-append (entries base cs c) end_marker, length-entries base cs c d f)

pub length-regions :
    (base : ℕ) (ts : Forest EntryInfo) (c d : ℕ)
    → FitsForest d ts
    → length (regions base ts c) ≡ regions_len ts
unfolding regions regions_len FitsForest
length-regions base nil c d f = refl
length-regions base (cons (node a cs) ts) c d (f, k, fc, ft) =
    let c1 = walk_entry a cs c in
    let own = own_bytes base a cs c1 in
    let sub = regions base cs c1 in
    let rest = regions base ts (walk_tree (node a cs) c) in
    omega (
      arith,
      length-append own (sub ++ rest),
      length-append sub rest,
      length-own_bytes base a cs c1 (d + 1) fc,
      length-regions base cs c1 (d + 1) fc,
      length-regions base ts (walk_tree (node a cs) c) d ft,
    )
