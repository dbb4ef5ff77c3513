-- ===== src/Wim/Tree/Walk/Lookup.antt =====
-- What `Lookup` finds after a walk has placed an entry, at its path and elsewhere.
use gowim.Base.{
  ℕ, Bool, true, false, List, [], ◌∷◌, some, if◌then◌else◌, ok, ◌≡◌, refl, arith, ap, ◌∙◌,
  Option-cases, Bool-cases, inl, inr, All,
}
use gowim.Text.{
  Text, IsScalar, equal_fold, equal_fold_refl, equal_fold_trans, utf16le_to_string,
  string_to_utf16le, utf16le_to_string-string_to_utf16le,
}
use gowim.Rose.{node, Forest, value, find, replace, find-snoc_new, find-replace, find-fits}
use gowim.Wim.Tree.Entry.{
  DirEntry, EntryInfo, is_directory, has_name, name_utf8, child, new_directory,
}
use gowim.Wim.Tree.Walk.Steps.{lookup_found, walk_gone, walk_into, walk_blocked}
use gowim.Wim.Tree.Walk.{LeafStep, lookup_from, walk_creating}

abbrev pub Scalars : Text → Type 0
Scalars = All IsScalar

-- The names of `ns` and those of `qs` part at some component: neither path begins with the other,
-- up to case.
abbrev pub diverges : (ℕ → ℕ) → List Text → List Text → Bool
diverges fold (n ∷ ns) (q ∷ qs) = if equal_fold fold n q then diverges fold ns qs else true
diverges fold _ _ = false

-- An entry that was given the name `n` answers to the names that fold like it, and to no others.
pub has_name-given :
    (fold : ℕ → ℕ) (n q : Text) (i : EntryInfo)
    → Scalars n
    → i.name ≡ string_to_utf16le n
    → has_name fold q i ≡ equal_fold fold n q
unfolding has_name name_utf8
has_name-given fold n q i h e =
    ap (λ (t : Text). equal_fold fold t q)
      (ap utf16le_to_string e ∙ utf16le_to_string-string_to_utf16le n h)

-- An entry found under `n` answers to `q` just where `n` folds like `q`.
pub has_name-found :
    (fold : ℕ → ℕ) (n q : Text) (i : EntryInfo)
    → has_name fold n i ≡ true
    → has_name fold q i ≡ equal_fold fold n q
unfolding has_name
has_name-found fold n q i h = equal_fold_trans fold (name_utf8 i) n q h

-- What a step does to the directory that it is given.
pub record Places (fold : ℕ → ℕ) (step : LeafStep) : Type 0 where
  pub placed :
      (n : Text) (d a : DirEntry)
      → Scalars n
      → (step n d).1 ≡ ok a
      → child fold n (step n d).0 ≡ some a
  pub keeps_value : (n : Text) (d : DirEntry) → value (step n d).0 ≡ value d
  pub keeps_others :
      (n q : Text) (d : DirEntry)
      → Scalars n
      → equal_fold fold n q ≡ false
      → child fold q (step n d).0 ≡ child fold q d

module _ (fold : ℕ → ℕ) (step : LeafStep) (s : Places fold step) where
  pub walk_creating-value :
      (ns : List Text) (d : DirEntry) → value (walk_creating fold step ns d).0 ≡ value d
  unfolding walk_creating child
  walk_creating-value [] d = refl
  walk_creating-value (n ∷ []) d = s.keeps_value n d
  walk_creating-value (n ∷ m ∷ ns) (node i cs) = ground arith

  -- What stands in a directory after the entry `n` in it has been walked into.
  pub walked_into :
      (n m : Text) (ns : List Text) (cs : Forest EntryInfo) (c : DirEntry)
      → find (has_name fold n) cs ≡ some c
      → find (has_name fold n) (replace (has_name fold n) (walk_creating fold step (m ∷ ns) c).0 cs)
        ≡ some (walk_creating fold step (m ∷ ns) c).0
  walked_into n m ns cs c here = find-replace (has_name fold n) cs _ c here (
      ap (has_name fold n) (walk_creating-value (m ∷ ns) c) ∙ find-fits (has_name fold n) cs c here)

  pub created-has_name :
      (n q m : Text) (ns : List Text)
      → Scalars n
      → has_name fold q (value (walk_creating fold step (m ∷ ns) (new_directory n)).0)
        ≡ equal_fold fold n q
  created-has_name n q m ns sc =
      ap (has_name fold q) (walk_creating-value (m ∷ ns) (new_directory n))
      ∙ has_name-given fold n q (value (new_directory n)) sc (unfold new_directory in refl)

  last_placed :
      (n : Text) (d a : DirEntry)
      → Scalars n
      → is_directory (value d) ≡ true
      → (walk_creating fold step (n ∷ []) d).1 ≡ ok a
      → lookup_from fold (n ∷ []) (walk_creating fold step (n ∷ []) d).0 ≡ ok a
  unfolding walk_creating lookup_from
  last_placed n d a sc dir h = ground (arith, s.keeps_value n d, s.placed n d a sc h)

  pub lookup-walk_creating :
      (ns : List Text) (d a : DirEntry)
      → All Scalars ns
      → is_directory (value d) ≡ true
      → (walk_creating fold step ns d).1 ≡ ok a
      → lookup_from fold ns (walk_creating fold step ns d).0 ≡ ok a
  lookup-walk_creating [] d a sc dir h = unfold walk_creating in cc
  lookup-walk_creating (n ∷ []) d a sc dir h = last_placed n d a sc.0 dir h
  lookup-walk_creating (n ∷ m ∷ ns) (node i cs) a sc dir h =
      elim (Option-cases (find (has_name fold n) cs)) [
        | inl gone ↦
            let made = walk_gone fold step n m ns i cs gone in
            let later =
              lookup-walk_creating (m ∷ ns) (new_directory n) a sc.1
                (unfold new_directory is_directory in refl) (rw made at h) in
            rw made (
              lookup_found fold n i _ (m ∷ ns) _ dir (
                find-snoc_new (has_name fold n) cs _ gone
                  (created-has_name n n m ns sc.0 ∙ equal_fold_refl fold n))
              ∙ later)
        | inr (c, here) ↦ elim (Bool-cases (is_directory (value c))) [
          | inl inner ↦
              let went = walk_into fold step n m ns i cs c here inner in
              let later = lookup-walk_creating (m ∷ ns) c a sc.1 inner (rw went at h) in
              rw went
                (lookup_found fold n i _ (m ∷ ns) _ dir (walked_into n m ns cs c here) ∙ later)
          | inr file ↦ absurd (cc (rw (walk_blocked fold step n m ns i cs c here file) at h))
        ]
      ]
