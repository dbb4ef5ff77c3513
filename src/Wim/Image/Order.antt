-- ===== src/Wim/Image/Order.antt =====
-- The order in which `assignSubdirOffsets` goes through a tree: it first collects the entries, parents
-- before children, and then moves its cursor over the collected list;
-- and the offsets that this gives, from the sizes of the entries alone.
use gowim.Base.{
  ℕ, ◌+◌, ◌^◌, ◌<◌, arith, if◌then◌else◌, ◌≡◌, refl, ap, sym, ◌∙◌, List, [], ◌∷◌, ◌++◌,
  append_assoc, append-nil,
}
use gowim.Rose.{Tree, node, Forest, nil, cons}
use gowim.Wim.Tree.Entry.{DirEntry, EntryInfo, is_directory}
use gowim.Wim.Dentry.Write.{entry_len, out_len}
use gowim.Wim.Image.Regions.{own_len, walk_entry-len}
use gowim.Wim.Image.Write.{
  walk_entry, subdir_offset_of, walk_tree, walk_forest, tree_offsets, forest_offsets, first_cursor,
  assign_subdir_offsets,
}

-- The closure `collect`.
unfoldable mutual
  pub collect : Tree EntryInfo → List (EntryInfo × Forest EntryInfo)
  collect (node a cs) = (a, cs) ∷ collect_all cs

  pub collect_all : Forest EntryInfo → List (EntryInfo × Forest EntryInfo)
  collect_all nil = []
  collect_all (cons t ts) = collect t ++ collect_all ts

-- The loop over `order`: the entries with their offsets, and the cursor at the end.
unfoldable pub walk_order : ℕ → List (EntryInfo × Forest EntryInfo) → ℕ → List (EntryInfo × ℕ) × ℕ
walk_order base [] cursor = ([], cursor)
walk_order base ((a, cs) ∷ order) cursor =
    let (offsets, last) = walk_order base order (walk_entry a cs cursor) in
    ((a, subdir_offset_of base a cursor) ∷ offsets, last)

-- The nodes of a tree, parents first.
unfoldable mutual
  pub preorder {ℓ} : {A : Type ℓ} → Tree A → List A
  preorder (node a cs) = a ∷ preorder_all cs

  pub preorder_all {ℓ} : {A : Type ℓ} → Forest A → List A
  preorder_all nil = []
  preorder_all (cons t ts) = preorder t ++ preorder_all ts

abbrev prepend : List (EntryInfo × ℕ) → List (EntryInfo × ℕ) × ℕ → List (EntryInfo × ℕ) × ℕ
prepend offsets (rest, last) = (offsets ++ rest, last)

mutual
  unfolding collect collect_all walk_order preorder preorder_all tree_offsets forest_offsets
      walk_tree walk_forest

  walk_order-collect :
      (base : ℕ) (t : Tree EntryInfo) (order : List (EntryInfo × Forest EntryInfo)) (c : ℕ)
      → walk_order base (collect t ++ order) c
        ≡ prepend (preorder (tree_offsets base t c)) (walk_order base order (walk_tree t c))
  walk_order-collect base (node a cs) order c =
      ap (prepend ((a, subdir_offset_of base a c) ∷ []))
        (walk_order-collect_all base cs order (walk_entry a cs c))

  walk_order-collect_all :
      (base : ℕ) (ts : Forest EntryInfo) (order : List (EntryInfo × Forest EntryInfo)) (c : ℕ)
      → walk_order base (collect_all ts ++ order) c
        ≡ prepend
            (preorder_all (forest_offsets base ts c))
            (walk_order base order (walk_forest ts c))
  walk_order-collect_all base nil order c = refl
  walk_order-collect_all base (cons t ts) order c =
      let offsets = preorder (tree_offsets base t c) in
      let offsets' = preorder_all (forest_offsets base ts (walk_tree t c)) in
      let (rest, last) = walk_order base order (walk_forest ts (walk_tree t c)) in
      ap (λ (o : List (EntryInfo × Forest EntryInfo)). walk_order base o c)
        (append_assoc (collect t) (collect_all ts) order)
      ∙ walk_order-collect base t (collect_all ts ++ order) c
      ∙ ap (prepend offsets) (walk_order-collect_all base ts order (walk_tree t c))
      ∙ ap (λ (o : List (EntryInfo × ℕ)). (o, last)) (sym (append_assoc offsets offsets' rest))

-- The loop over the collected entries gives each the offset that it has in the tree of offsets, and
-- ends with the same cursor.
walk_order-assign_subdir_offsets :
    (base : ℕ) (t : DirEntry)
    → walk_order base (collect t) (first_cursor t)
      ≡ (preorder ((assign_subdir_offsets t base).0), (assign_subdir_offsets t base).1)
unfolding assign_subdir_offsets walk_order
walk_order-assign_subdir_offsets base t =
    let c = first_cursor t in
    ap (λ (o : List (EntryInfo × Forest EntryInfo)). walk_order base o c)
      (sym (append-nil (collect t)))
    ∙ walk_order-collect base t [] c
    ∙ ap (λ (o : List (EntryInfo × ℕ)). (o, walk_tree t c))
        (append-nil (preorder (tree_offsets base t c)))

-- The room of the entries' children, each directory's with its end marker.
unfoldable pub rooms_len : List (EntryInfo × Forest EntryInfo) → ℕ
rooms_len [] = 0
rooms_len ((a, cs) ∷ order) = own_len a cs + rooms_len order

-- The offsets if every directory's children stand right behind those of the directories before it,
-- from position `c` on.
abbrev pub placed : ℕ → ℕ → List (EntryInfo × Forest EntryInfo) → List (EntryInfo × ℕ)
placed base c [] = []
placed base c ((a, cs) ∷ order) =
    (a, if is_directory a then base + c else 0) ∷ placed base (c + own_len a cs) order

subdir_offset_of-fits :
    (base : ℕ) (a : EntryInfo) (c : ℕ)
    → base + c < 2 ^ 64
    → subdir_offset_of base a c ≡ (if is_directory a then base + c else 0)
unfolding subdir_offset_of
subdir_offset_of-fits base a c h = ground arith

walk_order-placed :
    (base : ℕ) (order : List (EntryInfo × Forest EntryInfo)) (c : ℕ)
    → base + c + rooms_len order < 2 ^ 64
    → walk_order base order c ≡ (placed base c order, c + rooms_len order)
unfolding walk_order rooms_len
walk_order-placed base [] c h = ap (λ (k : ℕ). ([], k)) (omega arith)
walk_order-placed base ((a, cs) ∷ order) c h =
    rw
      (
        walk_entry-len a cs c (omega arith),
        subdir_offset_of-fits base a c (omega arith),
        walk_order-placed base order (c + own_len a cs) (omega arith),
      )
      (ap
        (λ (k : ℕ).
          ((a, if is_directory a then base + c else 0) ∷ placed base (c + own_len a cs) order, k))
        (omega arith))

-- The position behind the root and its end marker.
abbrev pub behind_root : DirEntry → ℕ
behind_root (node a cs) = entry_len a + 8

first_cursor-behind_root : (t : DirEntry) → behind_root t < 2 ^ 64 → first_cursor t ≡ behind_root t
unfolding out_len
first_cursor-behind_root (node a cs) h = omega arith

-- In an image whose entries and end markers take, with the base, less than 2^64 bytes, the children
-- of the directories stand one directory behind the other, in the order parents first: the first
-- directory, the root, gets the base plus the position behind its own entry and end marker, and each
-- further one the offset at which the children of the one before it and their end marker, of 8 bytes,
-- end. What is no directory gets 0, and the cursor ends behind the last directory's children.
pub assign_subdir_offsets-placed :
    (base : ℕ) (t : DirEntry)
    → base + behind_root t + rooms_len (collect t) < 2 ^ 64
    → (preorder ((assign_subdir_offsets t base).0) ≡ placed base (behind_root t) (collect t))
      × ((assign_subdir_offsets t base).1 ≡ behind_root t + rooms_len (collect t))
assign_subdir_offsets-placed base t h =
    let same =
      sym (walk_order-assign_subdir_offsets base t)
      ∙ ap (walk_order base (collect t)) (first_cursor-behind_root t (omega arith))
      ∙ walk_order-placed base (collect t) (behind_root t) h in
    (ap (λ p. p.0) same, ap (λ p. p.1) same)
