-- ===== src/Wim/Image/Siblings.antt =====
-- A tree is read back from the entries and regions that were written.
use gowim.Base.{
  ℕ, ◌+◌, ◌%◌, ◌^◌, ◌<◌, ◌≤◌, ◌≡◌, inl, inr, refl, ap, ◌∙◌, sym, arith, true, false, ◌++◌, length,
  append_assoc, ok, some, none, drop, zero, suc, leb, false,
}
use gowim.Bytes.{Bytes, drop-behind}
use gowim.Rose.{node, Forest, nil, cons}
use gowim.Wim.Tree.Entry.{EntryInfo, is_directory}
use gowim.Wim.Dentry.Write.{entry_len}
use gowim.Wim.Dentry.RoundTrip.{parse_dir_entry-at}
use gowim.Wim.Dentry.Entry.{FitsEntry, entry_bytes, length-entry_bytes}
use gowim.Wim.Image.Write.{walk_entry, subdir_offset_of, walk_tree, end_marker}
use gowim.Wim.Image.Regions.{
  FitsChildren, FitsForest, entries, own_bytes, own_len, regions, regions_len, walk_entry-len,
  walk_tree-len,
}
use gowim.Wim.Dentry.{Parsed, parse_dir_entry, max_dentry_tree_depth}
use gowim.Wim.Image.{has_children, parse_siblings}
use gowim.Wim.Image.Regions.{entries_len, length-regions, length-own_bytes}
use gowim.Wim.Image.Written.{subdir_offset-directory}
use gowim.Bytes.{u64_at}
use gowim.Wim.Security.{align_up8}

-- The end marker ends a directory.
parse_dir_entry-end_marker :
    (buf r : Bytes) (off : ℕ)
    → drop off buf ≡ end_marker ++ r
    → off + 8 ≤ length buf
    → length buf < 2 ^ 63
    → parse_dir_entry buf off ≡ ok none
unfolding parse_dir_entry gowim.Bytes.join8
parse_dir_entry-end_marker buf r off at within small =
    let here : align_up8 (u64_at (drop off buf) 0) ≡ 0 =
      ap (λ (b : Bytes). align_up8 (u64_at b 0)) at ∙ unfold align_up8 in refl in
    let e1 : (off + 8) % 2 ^ 64 ≡ off + 8 = omega arith in rw (here, e1) (ground arith)

-- A round of the loop, for an entry without children and for one with children.
parse_siblings-leaf :
    (n : ℕ) (buf : Bytes) (d off : ℕ) (p : Parsed) (ts : Forest EntryInfo)
    → parse_dir_entry buf off ≡ ok (some p)
    → has_children p ≡ false
    → parse_siblings n buf d p.next ≡ ok ts
    → parse_siblings (suc n) buf d off ≡ ok (cons (node p.info nil) ts)
unfolding parse_siblings
parse_siblings-leaf n buf d off p ts here none_below rest = rw (here, none_below, rest) refl

parse_siblings-directory :
    (n : ℕ) (buf : Bytes) (d off : ℕ) (p : Parsed) (cs ts : Forest EntryInfo)
    → parse_dir_entry buf off ≡ ok (some p)
    → has_children p ≡ true
    → d + 1 < max_dentry_tree_depth
    → parse_siblings n buf (d + 1) p.subdir_offset ≡ ok cs
    → parse_siblings n buf d p.next ≡ ok ts
    → parse_siblings (suc n) buf d off ≡ ok (cons (node p.info cs) ts)
unfolding parse_siblings
parse_siblings-directory n buf d off p cs ts here some_below deep below rest =
    let shallow : leb max_dentry_tree_depth (d + 1) ≡ false = ground arith in
    rw (here, some_below, shallow, below, rest) refl

unfoldable pub nodes : Forest EntryInfo → ℕ
nodes nil = 0
nodes (cons (node a cs) ts) = 1 + nodes cs + nodes ts

-- Where the regions of an entry's children and of its siblings stand.
regions_places :
    (base : ℕ) (a : EntryInfo) (cs ts : Forest EntryInfo) (buf r : Bytes) (c d : ℕ)
    → FitsForest d cs
    → drop (base + c) buf ≡ regions base (cons (node a cs) ts) c ++ r
    → base + c + own_len a cs + regions_len cs < 2 ^ 64
    → (let c1 = walk_entry a cs c in
        let c2 = walk_tree (node a cs) c in
        let behind = regions base ts c2 ++ r in
        (drop (base + c) buf ≡ own_bytes base a cs c1 ++ (regions base cs c1 ++ behind))
        × (drop (base + c1) buf ≡ regions base cs c1 ++ behind)
        × (drop (base + c2) buf ≡ behind))
regions_places base a cs ts buf r c d f below fits =
    let c1 = walk_entry a cs c in
    let c2 = walk_tree (node a cs) c in
    let own = own_bytes base a cs c1 in
    let sub = regions base cs c1 in
    let behind = regions base ts c2 ++ r in
    let e1 = walk_entry-len a cs c (omega arith) in
    let e2 = walk_tree-len a cs c (omega arith) in
    let whole : regions base (cons (node a cs) ts) c ≡ own ++ (sub ++ regions base ts c2) =
      unfold regions in refl in
    let own_at : drop (base + c) buf ≡ own ++ (sub ++ behind) =
      below
      ∙ ap (λ (b : Bytes). b ++ r) whole
      ∙ append_assoc own (sub ++ regions base ts c2) r
      ∙ ap (λ (b : Bytes). own ++ b) (append_assoc sub (regions base ts c2) r) in
    let sub_at =
      drop-behind buf own (sub ++ behind) (base + c) (base + c1)
        (omega (arith, e1, length-own_bytes base a cs c1 d f)) own_at in
    let behind_at =
      drop-behind buf sub behind (base + c1) (base + c2)
        (omega (arith, e1, e2, length-regions base cs c1 d f)) sub_at in
    (own_at, sub_at, behind_at)

-- The children of a directory stand where its offset says.
pub children_places :
    (base : ℕ) (a : EntryInfo) (cs : Forest EntryInfo) (buf x : Bytes) (c c1 next : ℕ)
    → is_directory a ≡ true
    → 0 < c
    → base + c < 2 ^ 64
    → drop (base + c) buf ≡ own_bytes base a cs c1 ++ x
    → (let o = subdir_offset_of base a c in
        (o ≡ base + c)
        × (drop o buf ≡ entries base cs c1 ++ (end_marker ++ x))
        × (has_children (record { info = a; subdir_offset = o; next = next }) ≡ true)
        × (own_len a cs ≡ entries_len cs + 8))
children_places base a cs buf x c c1 next dir k small at =
    let o = subdir_offset_of base a c in
    let o_is : o ≡ base + c = subdir_offset-directory base c a dir (omega arith) ∙ omega arith in
    let own : own_bytes base a cs c1 ≡ entries base cs c1 ++ end_marker =
      unfold own_bytes in rw dir refl in
    (
      o_is,
      ap (λ (m : ℕ). drop m buf) o_is
          ∙ at
          ∙ ap (λ (b : Bytes). b ++ x) own
          ∙ append_assoc (entries base cs c1) end_marker x,
      unfold has_children in rw (dir, o_is) (ground arith),
      unfold own_len in rw dir refl,
    )

pub no_children_places :
    (base c next : ℕ) (a : EntryInfo)
    → is_directory a ≡ false
    → has_children (record { info = a; subdir_offset = subdir_offset_of base a c; next = next })
      ≡ false
unfolding has_children
no_children_places base c next a file = ground arith

FitsForest-cons :
    (d : ℕ) (a : EntryInfo) (cs ts : Forest EntryInfo)
    → FitsForest d (cons (node a cs) ts)
    → FitsEntry a × FitsChildren (d + 1) a cs × FitsForest (d + 1) cs × FitsForest d ts
unfolding FitsForest
FitsForest-cons d a cs ts f = f

-- The lengths of the entries and regions, and the number of nodes.
cons_lens :
    (a : EntryInfo) (cs ts : Forest EntryInfo)
    → (entries_len (cons (node a cs) ts) ≡ entry_len a + entries_len ts)
      × (regions_len (cons (node a cs) ts) ≡ own_len a cs + regions_len cs + regions_len ts)
      × (nodes (cons (node a cs) ts) ≡ 1 + nodes cs + nodes ts)
unfolding entries_len regions_len nodes
cons_lens a cs ts = (refl, refl, refl)

-- The entries `ts` stand at `off`, and their regions where the cursor `c` is.
pub parse_siblings-written :
    (base : ℕ) (ts : Forest EntryInfo) (buf r1 r2 : Bytes) (c d off n : ℕ)
    → FitsForest d ts
    → drop off buf ≡ entries base ts c ++ (end_marker ++ r1)
    → drop (base + c) buf ≡ regions base ts c ++ r2
    → 0 < c
    → off + entries_len ts + 8 ≤ length buf
    → base + c + regions_len ts ≤ length buf
    → length buf < 2 ^ 63
    → nodes ts < n
    → parse_siblings n buf d off ≡ ok ts
parse_siblings-written base ts buf r1 r2 c d off zero f at below k w1 w2 small fuel = ground arith
parse_siblings-written base nil buf r1 r2 c d off (suc n) f at below k w1 w2 small fuel =
    let here =
      parse_dir_entry-end_marker buf r1 off (at ∙ unfold entries in refl)
        (unfold entries_len in omega arith) small in
    unfold parse_siblings in rw here refl
parse_siblings-written base (cons (node a cs) ts) buf r1 r2 c d off (suc n) f at below k w1 w2 small
      fuel =
    let (fa, fk, fc, ft) = FitsForest-cons d a cs ts f in
    let o = subdir_offset_of base a c in
    let c1 = walk_entry a cs c in
    let c2 = walk_tree (node a cs) c in
    let (l1, l2, l3) = cons_lens a cs ts in
    let e1 = walk_entry-len a cs c (omega (arith, l2)) in
    let e2 = walk_tree-len a cs c (omega (arith, l2)) in
    let (own_at, sub_at, behind_at) =
      regions_places base a cs ts buf r2 c (d + 1) fc below (omega (arith, l2)) in
    let tail = entries base ts c2 ++ (end_marker ++ r1) in
    let whole : entries base (cons (node a cs) ts) c ≡ entry_bytes a o ++ entries base ts c2 =
      unfold entries in refl in
    let split : drop off buf ≡ entry_bytes a o ++ tail =
      at
      ∙ ap (λ (b : Bytes). b ++ (end_marker ++ r1)) whole
      ∙ append_assoc (entry_bytes a o) (entries base ts c2) (end_marker ++ r1) in
    let next_at =
      drop-behind buf (entry_bytes a o) tail off (off + entry_len a)
        (ap (λ (m : ℕ). off + m) (sym (length-entry_bytes a o fa))) split in
    let read =
      parse_dir_entry-at a buf tail off o fa split (omega (arith, l1)) small
        (unfold subdir_offset_of in ground arith) in
    let rest =
      parse_siblings-written base ts buf r1 r2 c2 d (off + entry_len a) n ft next_at behind_at
        (omega (arith, e2)) (omega (arith, l1)) (omega (arith, e2, l2)) small (omega (arith, l3)) in
    elim fk [
      | inl (dir, deep) ↦
          let (o_is, inner, has, own) =
            children_places base a cs buf (regions base cs c1 ++ (regions base ts c2 ++ r2)) c c1
              (off + entry_len a) dir k (omega (arith, l2)) own_at in
          let cs_read =
            parse_siblings-written base cs buf (regions base cs c1 ++ (regions base ts c2 ++ r2))
              (regions base ts c2 ++ r2) c1 (d + 1) o n fc inner sub_at (omega (arith, e1))
              (omega (arith, o_is, own, l2)) (omega (arith, e1, l2)) small (omega (arith, l3)) in
          parse_siblings-directory n buf d off _ cs ts read has deep cs_read rest
      | inr (file, empty) ↦
          parse_siblings-leaf n buf d off _ ts read
            (no_children_places base c (off + entry_len a) a file) rest
          ∙ ap (λ (x : Forest EntryInfo). ok (cons (node a x) ts)) (sym empty)
    ]
