-- ===== src/Wim/Image/Written.antt =====
-- What the writer appends for a tree: its entries and regions.
use gowim.Base.{
  ℕ, ◌+◌, ◌%◌, ◌^◌, ◌<◌, ◌≡◌, inl, inr, ap, ◌∙◌, sym, arith, true, ◌++◌, append_assoc, append-nil,
  ok,
}
use gowim.Bytes.{Bytes}
use gowim.Rose.{node, Forest, nil, cons}
use gowim.Wim.Tree.Entry.{EntryInfo, is_directory}
use gowim.Wim.Dentry.Entry.{entry_bytes, append_dentry-fits}
use gowim.Wim.Image.Write.{
  walk_entry, subdir_offset_of, walk_tree, forest_offsets, end_marker, append_children,
  append_directory, append_walks,
}
use gowim.Wim.Image.Regions.{
  FitsChildren, FitsForest, entries, own_bytes, own_len, regions, regions_len, walk_entry-len,
  walk_tree-len,
}

-- The loop over the children appends their entries.
append_children-entries :
    (base : ℕ) (ts : Forest EntryInfo) (c d : ℕ) (dst : Bytes)
    → FitsForest d ts
    → append_children (forest_offsets base ts c) dst ≡ ok (dst ++ entries base ts c)
unfolding append_children forest_offsets entries FitsForest
append_children-entries base nil c d dst f = ap ok (sym (append-nil dst))
append_children-entries base (cons (node a cs) ts) c d dst (f, k, fc, ft) =
    let off = subdir_offset_of base a c in
    rw (append_dentry-fits a off dst f) (
      append_children-entries base ts (walk_tree (node a cs) c) d (dst ++ entry_bytes a off) ft
      ∙ ap ok (append_assoc dst (entry_bytes a off) (entries base ts (walk_tree (node a cs) c))))

pub subdir_offset-directory :
    (base c : ℕ) (a : EntryInfo)
    → is_directory a ≡ true
    → c + base < 2 ^ 64
    → subdir_offset_of base a c ≡ c + base
unfolding subdir_offset_of
subdir_offset-directory base c a k h = ground arith

-- What is written for one entry is its children, if it is a directory.
pub append_directory-own_bytes :
    (base : ℕ) (a : EntryInfo) (cs : Forest EntryInfo) (c c1 d e : ℕ) (dst : Bytes)
    → FitsChildren e a cs
    → FitsForest d cs
    → 0 < c
    → c + base < 2 ^ 64
    → append_directory a (subdir_offset_of base a c) (forest_offsets base cs c1) dst
      ≡ ok (dst ++ own_bytes base a cs c1)
unfolding append_directory own_bytes subdir_offset_of
append_directory-own_bytes base a cs c c1 d e dst fk f k h =
    let inner = append_children-entries base cs c1 d dst f in
    let flat = append_assoc dst (entries base cs c1) end_marker in
    let here : (c + base) % 2 ^ 64 ≡ c + base = omega arith in
    elim fk [
      | inl (dir, _) ↦ rw (dir, here, inner) (ground (arith, flat))
      | inr (file, _) ↦ rw (file) (ap ok (sym (append-nil dst)))
    ]

-- The walk appends the regions.
pub append_walks-regions :
    (base : ℕ) (ts : Forest EntryInfo) (c d : ℕ) (dst : Bytes)
    → FitsForest d ts
    → 0 < c
    → base + c + regions_len ts < 2 ^ 64
    → append_walks (forest_offsets base ts c) dst ≡ ok (dst ++ regions base ts c)
unfolding append_walks forest_offsets regions FitsForest regions_len
append_walks-regions base nil c d dst f k h = ap ok (sym (append-nil dst))
append_walks-regions base (cons (node a cs) ts) c d dst (f, fk, fc, ft) k h =
    let c1 = walk_entry a cs c in
    let e1 : c1 ≡ c + own_len a cs = walk_entry-len a cs c (omega arith) in
    let e2 : walk_tree (node a cs) c ≡ c + own_len a cs + regions_len cs =
      walk_tree-len a cs c (omega arith) in
    let own = own_bytes base a cs c1 in
    let sub = regions base cs c1 in
    let c2 = walk_tree (node a cs) c in
    let here =
      append_directory-own_bytes base a cs c c1 (d + 1) (d + 1) dst fk fc k (omega arith) in
    let below =
      append_walks-regions base cs c1 (d + 1) (dst ++ own) fc (omega (arith, e1))
        (omega (arith, e1)) in
    let behind =
      append_walks-regions base ts c2 d ((dst ++ own) ++ sub) ft (omega (arith, e2))
        (omega (arith, e2)) in
    let flat : ((dst ++ own) ++ sub) ++ regions base ts c2
        ≡ dst ++ (own ++ (sub ++ regions base ts c2)) =
      append_assoc (dst ++ own) sub (regions base ts c2)
      ∙ append_assoc dst own (sub ++ regions base ts c2) in
    rw (here, below, behind) (ap ok flat)
