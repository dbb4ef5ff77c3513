-- ===== src/Wim/Tree/Walk/Placed.antt =====
-- `Add` and `AttachAt` as the caller sees them through `Lookup`.
use gowim.Base.{
  ℕ, true, false, List, [], ◌∷◌, some, ok, err, Result, ap, ◌∙◌, ◌≡◌, refl, arith, Option-cases,
  Bool-cases, inl, inr,
}
use gowim.Bytes.{Bytes}
use gowim.Text.{
  Text, string_to_utf16le, split_path, split_path-IsScalar, equal_fold, equal_fold_refl,
}
use gowim.Rose.{
  node, value, children, find, find-snoc_new, find-snoc_other, find-replace, find-replace_other,
  find-fits,
}
use gowim.Wim.Tree.Entry.{new_directory, DirEntry, is_directory, has_name, child, main_hash}
use gowim.Wim.Tree.Walk.Lookup.{
  Scalars, diverges, Places, has_name-given, has_name-found, lookup-walk_creating,
}
use gowim.Wim.Tree.Walk.Frame.{walk_creating-frame}
use gowim.Wim.Tree.Walk.Steps.{walk_gone, walk_into, walk_blocked}
use gowim.Wim.Tree.Walk.{
  walk_creating, LeafStep, lookup, add_leaf, add, attach_leaf, attach_at, new_file, set_hash,
  renamed, TreeError, only_error,
}

module _ (fold : ℕ → ℕ) (hash : Bytes) where
  set_hash-has_name :
      (n : Text) (c : DirEntry)
      → has_name fold n (value (set_hash hash c)) ≡ has_name fold n (value c)
  unfolding has_name
  set_hash-has_name n (node i cs) = refl

  new_file-has_name :
      (n q : Text) → Scalars n → has_name fold q (value (new_file n hash)) ≡ equal_fold fold n q
  new_file-has_name n q sc = has_name-given fold n q (value (new_file n hash)) sc refl

  main_hash-set_hash : (c : DirEntry) → main_hash (value (set_hash hash c)) ≡ hash
  unfolding main_hash
  main_hash-set_hash (node i cs) = refl

  add_leaf-placed :
      (n : Text) (d a : DirEntry)
      → Scalars n
      → (add_leaf fold hash n d).1 ≡ ok a
      → child fold n (add_leaf fold hash n d).0 ≡ some a
  unfolding add_leaf child
  add_leaf-placed n (node i cs) a sc h = elim (Option-cases (find (has_name fold n) cs)) [
    | inl gone ↦ ground (
      arith,
      find-snoc_new (has_name fold n) cs (new_file n hash) gone,
      new_file-has_name n n sc,
      equal_fold_refl fold n,
    )
    | inr (c, here) ↦ ground (
      arith,
      find-replace (has_name fold n) cs (set_hash hash c) c here,
      set_hash-has_name n c,
      find-fits (has_name fold n) cs c here,
    )
  ]

  add_leaf-keeps_others :
      (n q : Text) (d : DirEntry)
      → Scalars n
      → equal_fold fold n q ≡ false
      → child fold q (add_leaf fold hash n d).0 ≡ child fold q d
  unfolding add_leaf child
  add_leaf-keeps_others n q (node i cs) sc other = elim (Option-cases (find (has_name fold n) cs)) [
    | inl gone ↦
        ground
          (arith, find-snoc_other (has_name fold q) cs (new_file n hash), new_file-has_name n q sc)
    | inr (c, here) ↦ ground (
      arith,
      find-replace_other (has_name fold n) (has_name fold q) cs (set_hash hash c) c here,
      set_hash-has_name q c,
      has_name-found fold n q (value c),
      find-fits (has_name fold n) cs c here,
    )
  ]

  add_leaf-keeps_value : (n : Text) (d : DirEntry) → value (add_leaf fold hash n d).0 ≡ value d
  unfolding add_leaf child
  add_leaf-keeps_value n (node i cs) = ground arith

  add_leaf-Places : Places fold (add_leaf fold hash)
  add_leaf-Places = record {
    placed = add_leaf-placed;
    keeps_value = add_leaf-keeps_value;
    keeps_others = add_leaf-keeps_others;
  }

module _ (fold : ℕ → ℕ) (subtree : DirEntry) where
  renamed-has_name :
      (n q : Text) → Scalars n → has_name fold q (value (renamed n subtree)) ≡ equal_fold fold n q
  renamed-has_name n q sc = has_name-given fold n q (value (renamed n subtree)) sc refl

  attach_leaf-placed :
      (n : Text) (d a : DirEntry)
      → Scalars n
      → (attach_leaf fold subtree n d).1 ≡ ok a
      → child fold n (attach_leaf fold subtree n d).0 ≡ some a
  unfolding attach_leaf child
  attach_leaf-placed n (node i cs) a sc h = ground (
    arith,
    find-snoc_new (has_name fold n) cs (renamed n subtree),
    renamed-has_name n n sc,
    equal_fold_refl fold n,
  )

  attach_leaf-keeps_others :
      (n q : Text) (d : DirEntry)
      → Scalars n
      → equal_fold fold n q ≡ false
      → child fold q (attach_leaf fold subtree n d).0 ≡ child fold q d
  unfolding attach_leaf child
  attach_leaf-keeps_others n q (node i cs) sc other =
      ground
        (arith, find-snoc_other (has_name fold q) cs (renamed n subtree), renamed-has_name n q sc)

  attach_leaf-keeps_value :
      (n : Text) (d : DirEntry) → value (attach_leaf fold subtree n d).0 ≡ value d
  unfolding attach_leaf child
  attach_leaf-keeps_value n (node i cs) = ground arith

  attach_leaf-Places : Places fold (attach_leaf fold subtree)
  attach_leaf-Places = record {
    placed = attach_leaf-placed;
    keeps_value = attach_leaf-keeps_value;
    keeps_others = attach_leaf-keeps_others;
  }

add_leaf-main_hash :
    (fold : ℕ → ℕ) (hash : Bytes) (n : Text) (d a : DirEntry)
    → (add_leaf fold hash n d).1 ≡ ok a
    → main_hash (value a) ≡ hash
unfolding add_leaf child
add_leaf-main_hash fold hash n (node i cs) a h = elim (Option-cases (find (has_name fold n) cs)) [
  | inl gone ↦ unfold main_hash in ground arith
  | inr (c, here) ↦ ground (arith, main_hash-set_hash fold hash c)
]

-- The given subtree under another name.
attach_leaf-under_name :
    (fold : ℕ → ℕ) (subtree : DirEntry) (n : Text) (d a : DirEntry)
    → (attach_leaf fold subtree n d).1 ≡ ok a
    → a ≡ node (record (value subtree) { name = string_to_utf16le n }) (children subtree)
unfolding attach_leaf child
attach_leaf-under_name fold subtree n (node i cs) a h = ground arith

-- The last component of a path.
abbrev pub last_component : List Text → Text
last_component [] = []
last_component (n ∷ []) = n
last_component (n ∷ m ∷ ns) = last_component (m ∷ ns)

-- What every entry that the step makes has for its name, the entry that the walk returns has for the
-- last component.
walk_creating-result {ℓ} :
    (fold : ℕ → ℕ) (step : LeafStep) (P : Text → DirEntry → Type ℓ)
    → ((n : Text) (d a : DirEntry) → (step n d).1 ≡ ok a → P n a)
    → (ns : List Text) (d a : DirEntry) → (walk_creating fold step ns d).1 ≡ ok a
    → P (last_component ns) a
unfolding walk_creating
walk_creating-result fold step P made [] d a h = cc
walk_creating-result fold step P made (n ∷ []) d a h = made n d a h
walk_creating-result fold step P made (n ∷ m ∷ ns) (node i cs) a h =
    elim (Option-cases (find (has_name fold n) cs)) [
      | inl gone ↦
          walk_creating-result fold step P made (m ∷ ns) (new_directory n) a
            (rw (walk_gone fold step n m ns i cs gone) at h)
      | inr (c, here) ↦ elim (Bool-cases (is_directory (value c))) [
        | inl inner ↦
            walk_creating-result fold step P made (m ∷ ns) c a
              (rw (walk_into fold step n m ns i cs c here inner) at h)
        | inr file ↦ absurd (cc (rw (walk_blocked fold step n m ns i cs c here file) at h))
      ]
    ]

-- After `Add` has succeeded in a directory, `Lookup` of the same path finds the entry that `Add`
-- returned, and its main hash is the one that was added. The path is made of Unicode scalar values.
pub lookup-add :
    (fold : ℕ → ℕ) (path : Text) (hash : Bytes) (d a : DirEntry)
    → Scalars path
    → is_directory (value d) ≡ true
    → (add fold path hash d).1 ≡ ok a
    → (lookup fold path (add fold path hash d).0 ≡ ok a) × (main_hash (value a) ≡ hash)
unfolding lookup add
lookup-add fold path hash d a sc dir h = (
  lookup-walk_creating fold (add_leaf fold hash) (add_leaf-Places fold hash) (split_path path) d a
      (split_path-IsScalar path sc) dir h,
  walk_creating-result fold (add_leaf fold hash) (λ n e. main_hash (value e) ≡ hash)
      (add_leaf-main_hash fold hash) (split_path path) d a h,
)

-- `Add` changes nothing under a path that parts from its own at some component, case aside: there
-- `Lookup` gives what it gave before, whether `Add` succeeds or not. The path that `Add` is given is
-- made of Unicode scalar values.
pub lookup-add_other :
    (fold : ℕ → ℕ) (path other : Text) (hash : Bytes) (d : DirEntry)
    → Scalars path
    → diverges fold (split_path path) (split_path other) ≡ true
    → lookup fold other (add fold path hash d).0 ≡ lookup fold other d
unfolding lookup add
lookup-add_other fold path other hash d sc h =
    walk_creating-frame fold (add_leaf fold hash) (add_leaf-Places fold hash) (split_path path)
      (split_path other) d (split_path-IsScalar path sc) h

-- What `AttachAt` attached.
only_error-ok : (r : Result TreeError DirEntry) → only_error r ≡ ok tt → (a : DirEntry) × (r ≡ ok a)
only_error-ok (ok a) h = (a, refl)
only_error-ok (err e) h = absurd (cc)

-- After `AttachAt` has succeeded in a directory, `Lookup` of the same path finds the given subtree,
-- with its children and all its fields, but for the name, which is the last component of the path.
-- The path is made of Unicode scalar values.
pub lookup-attach_at :
    (fold : ℕ → ℕ) (path : Text) (subtree d : DirEntry)
    → Scalars path
    → is_directory (value d) ≡ true
    → (attach_at fold path subtree d).1 ≡ ok tt
    → lookup fold path (attach_at fold path subtree d).0
      ≡ ok (
          node
            (record (value subtree) { name = string_to_utf16le (last_component (split_path path)) })
            (children subtree))
unfolding lookup attach_at
lookup-attach_at fold path subtree d sc dir h =
    let ns = split_path path in
    let step = attach_leaf fold subtree in
    let (a, e) = only_error-ok (walk_creating fold step ns d).1 h in
    let under_name =
      walk_creating-result fold step
        (λ n x. x ≡ node (record (value subtree) { name = string_to_utf16le n }) (children subtree))
        (attach_leaf-under_name fold subtree) ns d a e in
    lookup-walk_creating fold step (attach_leaf-Places fold subtree) ns d a
      (split_path-IsScalar path sc) dir e
    ∙ ap (λ (x : DirEntry). ok x) under_name

-- `AttachAt` changes nothing under a path that parts from its own at some component, case aside:
-- there `Lookup` gives what it gave before, whether `AttachAt` succeeds or not. The path that it is
-- given is made of Unicode scalar values.
pub lookup-attach_at_other :
    (fold : ℕ → ℕ) (path other : Text) (subtree d : DirEntry)
    → Scalars path
    → diverges fold (split_path path) (split_path other) ≡ true
    → lookup fold other (attach_at fold path subtree d).0 ≡ lookup fold other d
unfolding lookup attach_at
lookup-attach_at_other fold path other subtree d sc h =
    walk_creating-frame fold (attach_leaf fold subtree) (attach_leaf-Places fold subtree)
      (split_path path) (split_path other) d (split_path-IsScalar path sc) h
