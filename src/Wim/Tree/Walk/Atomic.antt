-- ===== src/Wim/Tree/Walk/Atomic.antt =====
-- A walk that fails leaves the tree as it was, although it may create directories on its way.
use gowim.Base.{Result, ℕ, List, [], ◌∷◌, ok, err, ◌≡◌, refl, arith, Option-cases, inl, inr}
use gowim.Bytes.{Bytes}
use gowim.Text.{Text, split_path}
use gowim.Rose.{node, nil, value, find, replace_self}
use gowim.Wim.Tree.Entry.{DirEntry, EntryInfo, has_name, child, new_directory}
use gowim.Wim.Tree.Walk.{
  TreeError, LeafStep, walk_creating, add_leaf, add, attach_leaf, attach_at, remove_from, remove_at,
  only_error,
}

-- What a failed step must have left alone, and where a step cannot fail.
pub record IsAtomic (fold : ℕ → ℕ) (step : LeafStep) : Type 0 where
  pub fails_clean :
      (n : Text) (d : DirEntry) (e : TreeError) → (step n d).1 ≡ err e → (step n d).0 ≡ d
  pub succeeds_on_empty :
      (n : Text) (i : EntryInfo) → (a : DirEntry) × ((step n (node i nil)).1 ≡ ok a)

module _ (fold : ℕ → ℕ) (step : LeafStep) (s : IsAtomic fold step) where
  walk_fresh :
      (n : Text) (ns : List Text) (i : EntryInfo)
      → (a : DirEntry) × ((walk_creating fold step (n ∷ ns) (node i nil)).1 ≡ ok a)
  unfolding walk_creating child find new_directory
  walk_fresh n [] i = s.succeeds_on_empty n i
  walk_fresh n (m ∷ ns) i = walk_fresh m ns (value (new_directory n))

  created :
      (n m : Text) (ns : List Text)
      → (a : DirEntry) × ((walk_creating fold step (m ∷ ns) (new_directory n)).1 ≡ ok a)
  unfolding new_directory
  created n m ns = walk_fresh m ns (value (new_directory n))

  pub walk_creating-atomic :
      (ns : List Text) (d : DirEntry) (e : TreeError)
      → (walk_creating fold step ns d).1 ≡ err e
      → (walk_creating fold step ns d).0 ≡ d
  unfolding walk_creating child
  walk_creating-atomic [] d e h = refl
  walk_creating-atomic (n ∷ []) d e h = s.fails_clean n d e h
  walk_creating-atomic (n ∷ m ∷ ns) (node i cs) e h =
      elim (Option-cases (find (has_name fold n) cs)) [
        | inl gone ↦ ground (arith, created n m ns)
        | inr (c, here) ↦
            ground (arith, walk_creating-atomic (m ∷ ns) c e, replace_self (has_name fold n) cs c)
      ]

add_leaf-IsAtomic : (fold : ℕ → ℕ) (hash : Bytes) → IsAtomic fold (add_leaf fold hash)
unfolding add_leaf child find
add_leaf-IsAtomic fold hash = record {
  fails_clean = λ n d e h. ground arith;
  succeeds_on_empty = λ n i. (_, refl);
}

attach_leaf-IsAtomic :
    (fold : ℕ → ℕ) (subtree : DirEntry) → IsAtomic fold (attach_leaf fold subtree)
unfolding attach_leaf child find
attach_leaf-IsAtomic fold subtree = record {
  fails_clean = λ n d e h. ground arith;
  succeeds_on_empty = λ n i. (_, refl);
}

-- `Add` that returns an error leaves the tree exactly as it was: no directory that it would have
-- created on the way stays behind.
pub add-atomic :
    (fold : ℕ → ℕ) (path : Text) (hash : Bytes) (d : DirEntry) (e : TreeError)
    → (add fold path hash d).1 ≡ err e
    → (add fold path hash d).0 ≡ d
unfolding add
add-atomic fold path hash d e =
    walk_creating-atomic fold (add_leaf fold hash) (add_leaf-IsAtomic fold hash) (split_path path) d
      e

only_error-err : (r : Result TreeError DirEntry) (e : TreeError) → only_error r ≡ err e → r ≡ err e
only_error-err (ok a) e h = cc
only_error-err (err f) e h = cc

-- `AttachAt` that returns an error leaves the tree exactly as it was: no directory that it would
-- have created on the way stays behind.
pub attach_at-atomic :
    (fold : ℕ → ℕ) (path : Text) (subtree d : DirEntry) (e : TreeError)
    → (attach_at fold path subtree d).1 ≡ err e
    → (attach_at fold path subtree d).0 ≡ d
unfolding attach_at
attach_at-atomic fold path subtree d e h =
    walk_creating-atomic fold (attach_leaf fold subtree) (attach_leaf-IsAtomic fold subtree)
      (split_path path) d e
      (only_error-err (walk_creating fold (attach_leaf fold subtree) (split_path path) d).1 e h)

remove_from-atomic :
    (fold : ℕ → ℕ) (ns : List Text) (d : DirEntry) (e : TreeError)
    → (remove_from fold ns d).1 ≡ err e
    → (remove_from fold ns d).0 ≡ d
unfolding remove_from child
remove_from-atomic fold [] d e h = refl
remove_from-atomic fold (n ∷ []) d e h = ground arith
remove_from-atomic fold (n ∷ m ∷ ns) (node i cs) e h =
    elim (Option-cases (find (has_name fold n) cs)) [
      | inl gone ↦ ground arith
      | inr (c, here) ↦
          ground (arith, remove_from-atomic fold (m ∷ ns) c e, replace_self (has_name fold n) cs c)
    ]

-- `Remove` that returns an error leaves the tree exactly as it was.
pub remove_at-atomic :
    (fold : ℕ → ℕ) (path : Text) (d : DirEntry) (e : TreeError)
    → (remove_at fold path d).1 ≡ err e
    → (remove_at fold path d).0 ≡ d
unfolding remove_at
remove_at-atomic fold path d e = remove_from-atomic fold (split_path path) d e
