-- ===== src/Wim/Image/RoundTrip.antt =====
-- The metadata of an image, read back from what was written.
use gowim.Base.{
  ℕ, ◌+◌, ◌*◌, ◌%◌, ◌^◌, ◌<◌, ◌≤◌, ◌≡◌, inl, inr, refl, ap, ◌∙◌, sym, arith, true, false, [], ◌++◌,
  length, append_assoc, append-nil, length-append, ok, some, drop, drop-append, Option, false,
}
use gowim.Bytes.{Bytes, drop-behind}
use gowim.Rose.{node, Forest, nil}
use gowim.Wim.Tree.Entry.{DirEntry, EntryInfo}
use gowim.Wim.Dentry.Write.{entry_len, out_len}
use gowim.Wim.Dentry.RoundTrip.{parse_dir_entry-at}
use gowim.Wim.Dentry.Entry.{FitsEntry, entry_bytes, length-entry_bytes, append_dentry-fits}
use gowim.Wim.Image.Write.{walk_entry, subdir_offset_of, tree_offsets, end_marker, append_walk}
use gowim.Wim.Image.Regions.{
  FitsChildren, FitsForest, own_bytes, own_len, regions, regions_len, walk_entry-len, walk_tree-len,
}
use gowim.Wim.Dentry.{Parsed, parse_dir_entry}
use gowim.Wim.Image.{has_children, parse_siblings}
use gowim.Wim.Image.Regions.{length-regions, length-own_bytes}
use gowim.Wim.Image.{ImageMetadata, parse_dir_entry_tree, parse_image_metadata}
use gowim.Wim.Image.Write.{
  assign_subdir_offsets, append_with_offsets, append_tree_based, append_dir_entry_tree,
  append_metadata,
}
use gowim.Wim.Image.Written.{append_directory-own_bytes, append_walks-regions}
use gowim.Wim.Image.Regions.{own_len}
use gowim.Wim.Image.Siblings.{nodes, parse_siblings-written, children_places, no_children_places}
use gowim.Wim.Security.{Descriptors, encoded_len, parse_security_data, descriptors_size}
use gowim.Wim.Security.RoundTrip.{SizesFit, parse-append_security_data}

-- The entries of a tree fit, at most 16384 levels of them under the root.
abbrev pub FitsTree : DirEntry → Type 0
FitsTree (node a cs) = FitsEntry a × FitsChildren 0 a cs × FitsForest 0 cs

-- The length of a tree in bytes, as the sum over its entries.
abbrev pub tree_len : DirEntry → ℕ
tree_len (node a cs) = entry_len a + 8 + own_len a cs + regions_len cs

abbrev pub tree_nodes : DirEntry → ℕ
tree_nodes (node a cs) = nodes cs

-- The bytes of a tree that starts at `base`.
abbrev tree_bytes : ℕ → DirEntry → Bytes
tree_bytes base (node a cs) =
    let c = entry_len a + 8 in
    let c1 = c + own_len a cs in
    entry_bytes a (subdir_offset_of base a c)
    ++ (end_marker ++ (own_bytes base a cs c1 ++ regions base cs c1))

length-tree_bytes : (base : ℕ) (t : DirEntry) → FitsTree t → length (tree_bytes base t) ≡ tree_len t
length-tree_bytes base (node a cs) (f, k, fc) =
    let c = entry_len a + 8 in
    let c1 = c + own_len a cs in
    let o = subdir_offset_of base a c in
    let own = own_bytes base a cs c1 in
    omega (
      arith,
      length-append (entry_bytes a o) (end_marker ++ (own ++ regions base cs c1)),
      length-append own (regions base cs c1),
      length-entry_bytes a o f,
      length-own_bytes base a cs c1 0 fc,
      length-regions base cs c1 0 fc,
    )

-- The size that `assignSubdirOffsets` returns, and what is written with its offsets.
assigned_size :
    (base : ℕ) (t : DirEntry) → tree_len t < 2 ^ 63 → (assign_subdir_offsets t base).1 ≡ tree_len t
unfolding assign_subdir_offsets
assigned_size base (node a cs) small =
    let e0 : (out_len a + 8) % 2 ^ 64 ≡ entry_len a + 8 = unfold out_len in omega arith in
    rw e0 (walk_tree-len a cs (entry_len a + 8) (omega arith))

append_with_offsets-tree_bytes :
    (base : ℕ) (t : DirEntry) (dst : Bytes)
    → FitsTree t
    → base + tree_len t < 2 ^ 63
    → append_with_offsets ((assign_subdir_offsets t base).0) dst ≡ ok (dst ++ tree_bytes base t)
unfolding append_with_offsets assign_subdir_offsets tree_offsets append_walk
append_with_offsets-tree_bytes base (node a cs) dst (f, k, fc) small =
    let c = entry_len a + 8 in
    let c1 = c + own_len a cs in
    let o = subdir_offset_of base a c in
    let head = (dst ++ entry_bytes a o) ++ end_marker in
    let own = own_bytes base a cs c1 in
    let sub = regions base cs c1 in
    let e0 : (out_len a + 8) % 2 ^ 64 ≡ c = unfold out_len in omega arith in
    let e1 : walk_entry a cs c ≡ c1 = walk_entry-len a cs c (omega arith) in
    let root = append_dentry-fits a o dst f in
    let here =
      append_directory-own_bytes base a cs c c1 0 0 head k fc (omega arith) (omega arith) in
    let below = append_walks-regions base cs c1 0 (head ++ own) fc (omega arith) (omega arith) in
    let flat : (head ++ own) ++ sub ≡ dst ++ (entry_bytes a o ++ (end_marker ++ (own ++ sub))) =
      append_assoc head own sub
      ∙ append_assoc (dst ++ entry_bytes a o) end_marker (own ++ sub)
      ∙ append_assoc dst (entry_bytes a o) (end_marker ++ (own ++ sub)) in
    rw (e0, e1, root, here, below) (ap ok flat)

parse_root-directory :
    (n : ℕ) (buf : Bytes) (base : ℕ) (p : Parsed) (cs : Forest EntryInfo)
    → parse_dir_entry buf base ≡ ok (some p)
    → has_children p ≡ true
    → parse_siblings n buf 0 p.subdir_offset ≡ ok cs
    → parse_dir_entry_tree n buf base ≡ ok (some (node p.info cs))
unfolding parse_dir_entry_tree
parse_root-directory n buf base p cs here some_below below = rw (here, some_below, below) refl

parse_root-leaf :
    (n : ℕ) (buf : Bytes) (base : ℕ) (p : Parsed)
    → parse_dir_entry buf base ≡ ok (some p)
    → has_children p ≡ false
    → parse_dir_entry_tree n buf base ≡ ok (some (node p.info nil))
unfolding parse_dir_entry_tree
parse_root-leaf n buf base p here none_below = rw (here, none_below) refl

parse_dir_entry_tree-written :
    (base : ℕ) (t : DirEntry) (buf r : Bytes) (n : ℕ)
    → FitsTree t
    → drop base buf ≡ tree_bytes base t ++ r
    → base + tree_len t ≤ length buf
    → length buf < 2 ^ 63
    → tree_nodes t < n
    → parse_dir_entry_tree n buf base ≡ ok (some t)
parse_dir_entry_tree-written base (node a cs) buf r n (f, k, fc) at within small fuel =
    let c = entry_len a + 8 in
    let c1 = c + own_len a cs in
    let o = subdir_offset_of base a c in
    let sub = regions base cs c1 in
    let tail = end_marker ++ ((own_bytes base a cs c1 ++ sub) ++ r) in
    let split : drop base buf ≡ entry_bytes a o ++ tail =
      at
      ∙ append_assoc (entry_bytes a o) (end_marker ++ (own_bytes base a cs c1 ++ sub)) r
      ∙ ap (λ (b : Bytes). entry_bytes a o ++ b)
          (append_assoc end_marker (own_bytes base a cs c1 ++ sub) r) in
    let next_at =
      drop-behind buf (entry_bytes a o) tail base (base + entry_len a)
        (ap (λ (m : ℕ). base + m) (sym (length-entry_bytes a o f))) split in
    let own_at : drop (base + c) buf ≡ own_bytes base a cs c1 ++ (sub ++ r) =
      drop-behind buf end_marker ((own_bytes base a cs c1 ++ sub) ++ r) (base + entry_len a)
        (base + c) (omega arith) next_at
      ∙ append_assoc (own_bytes base a cs c1) sub r in
    let sub_at =
      drop-behind buf (own_bytes base a cs c1) (sub ++ r) (base + c) (base + c1)
        (omega (arith, length-own_bytes base a cs c1 0 fc)) own_at in
    let read =
      parse_dir_entry-at a buf tail base o f split (omega arith) small
        (unfold subdir_offset_of in ground arith) in
    elim k [
      | inl (dir, _) ↦
          let (o_is, inner, has, own) =
            children_places base a cs buf (sub ++ r) c c1 (base + entry_len a) dir (omega arith)
              (omega arith) own_at in
          let below =
            parse_siblings-written base cs buf (sub ++ r) r c1 0 o n fc inner sub_at (omega arith)
              (omega (arith, o_is, own)) (omega arith) small fuel in
          parse_root-directory n buf base _ cs read has below
      | inr (file, empty) ↦
          parse_root-leaf n buf base _ read (no_children_places base c (base + entry_len a) a file)
          ∙ ap (λ (x : Forest EntryInfo). ok (some (node a x))) (sym empty)
    ]

-- `AppendDirEntryTree` succeeds on a tree that fits, writes as many bytes as
-- `assignSubdirOffsets` says, and `ParseDirEntryTree` reads the tree back from them, whatever
-- follows, with more fuel than there are entries under the root and below 2^63 bytes in all.
pub parse_dir_entry_tree-append_dir_entry_tree :
    (t : DirEntry) (dst r : Bytes) (n : ℕ)
    → FitsTree t
    → tree_len t + length r < 2 ^ 63
    → tree_nodes t < n
    → (out : Bytes) × (append_dir_entry_tree (some t) dst ≡ ok (dst ++ out))
      × (length out ≡ (assign_subdir_offsets t 0).1)
      × (parse_dir_entry_tree n (out ++ r) 0 ≡ ok (some t))
unfolding append_dir_entry_tree append_tree_based
parse_dir_entry_tree-append_dir_entry_tree t dst r n f small fuel =
    let out = tree_bytes 0 t in
    let size = length-tree_bytes 0 t f in
    let long = length-append out r in
    (
      out,
      append_with_offsets-tree_bytes 0 t dst f (omega arith),
      size ∙ sym (assigned_size 0 t (omega arith)),
      parse_dir_entry_tree-written 0 t (out ++ r) r n f refl (omega arith) (omega arith) fuel,
    )

parse_both :
    (buf : Bytes) (ds : Descriptors) (base n : ℕ) (root : Option DirEntry)
    → parse_security_data buf ≡ ok (ds, base)
    → parse_dir_entry_tree n buf base ≡ ok root
    → parse_image_metadata n buf ≡ ok (record { security = some ds; root = root })
unfolding parse_image_metadata
parse_both buf ds base n root h k = rw (parse_image_metadata, h, k) refl

-- The metadata of an image whose descriptors and tree fit are written, in the size that the
-- buffer is grown to, and `ParseImageMetadata` reads them back as they were, with more fuel than
-- there are entries under the root and below 2^63 bytes in all.
pub parse_image_metadata-append_metadata :
    (ds : Descriptors) (t : DirEntry) (dst : Bytes) (n : ℕ)
    → SizesFit ds
    → length ds ≤ 0x8000_0000
    → 8 + length ds * 8 + descriptors_size ds + 7 < 2 ^ 32
    → FitsTree t
    → encoded_len ds + tree_len t < 2 ^ 63
    → tree_nodes t < n
    → (let m : ImageMetadata = record { security = some ds; root = some t } in
        (out : Bytes) × (append_metadata m dst ≡ ok (dst ++ out))
        × (length out ≡ encoded_len ds + (assign_subdir_offsets t (encoded_len ds)).1)
        × (parse_image_metadata n out ≡ ok m))
unfolding append_metadata
parse_image_metadata-append_metadata ds t dst n fs count fits f small fuel =
    let base = encoded_len ds in
    let tree = tree_bytes base t in
    let (sec, appended, sec_len, sec_read) = parse-append_security_data ds dst tree fs count fits in
    let out = sec ++ tree in
    let size = length-tree_bytes base t f in
    let long = length-append sec tree in
    let written = append_with_offsets-tree_bytes base t (dst ++ sec) f small in
    let at : drop base (sec ++ tree) ≡ tree ++ [] =
      ap (λ (k : ℕ). drop k out) (sym sec_len) ∙ drop-append sec tree ∙ sym (append-nil tree) in
    let tree_read =
      parse_dir_entry_tree-written base t out [] n f at (omega arith) (omega arith) fuel in
    (
      out,
      rw (appended, written) (ap ok (append_assoc dst sec tree)),
      long ∙ omega (arith, size, sec_len, assigned_size base t (omega arith)),
      parse_both out ds base n (some t) sec_read tree_read,
    )
