-- ===== src/Wim/Tree/Walk/Frame.antt =====
-- `Add` and `AttachAt`: the placed entry is found, and other paths lead where they led before.
use mathlib.Core.Path.{fun_ext}
use gowim.Base.{
  ℕ, Bool, true, false, not, List, [], ◌∷◌, none, some, if◌then◌else◌, Result, err, ◌≡◌, refl, ap,
  ◌∙◌, Option-cases, Bool-cases, inl, inr, sym, All,
}
use gowim.Text.{Text, equal_fold, equal_fold_refl, equal_fold_right}
use gowim.Rose.{
  node, Forest, value, children, find, find-snoc_new, find-snoc_other, find-replace_other,
  find-fits,
}
use gowim.Wim.Tree.Entry.{
  DirEntry, EntryInfo, is_directory, has_name, name_utf8, child, new_directory,
}
use gowim.Wim.Tree.Walk.Lookup.{
  Scalars, diverges, Places, has_name-found, walk_creating-value, walked_into, created-has_name,
}
use gowim.Wim.Tree.Walk.Steps.{lookup_found, lookup_gone, walk_gone, walk_into, walk_blocked}
use gowim.Wim.Tree.Walk.{TreeError, LeafStep, not_found, lookup_from, walk_creating}

module _ (fold : ℕ → ℕ) where
  -- Directories with the same value and the same answers to `q` give the same lookups under `q`.
  pub lookup_same_child :
      (q : Text) (qs : List Text) (d e : DirEntry)
      → value d ≡ value e
      → child fold q d ≡ child fold q e
      → lookup_from fold (q ∷ qs) d ≡ lookup_from fold (q ∷ qs) e
  unfolding lookup_from
  lookup_same_child q qs d e v c = rw (v, c)

  lookup_empty :
      (q : Text) (qs : List Text) (n : Text)
      → lookup_from fold (q ∷ qs) (new_directory n) ≡ err not_found
  unfolding lookup_from new_directory is_directory child find
  lookup_empty q qs n = refl

  pub has_name-same : (n q : Text) → equal_fold fold n q ≡ true → has_name fold q ≡ has_name fold n
  unfolding has_name
  has_name-same n q h = fun_ext (λ i. equal_fold_right fold n q (name_utf8 i) h)

  -- Names that fold alike lead to the same entries.
  pub lookup_same_fold :
      (n q : Text) (qs : List Text) (d : DirEntry)
      → equal_fold fold n q ≡ true
      → lookup_from fold (q ∷ qs) d ≡ lookup_from fold (n ∷ qs) d
  lookup_same_fold n q qs d h =
      lookup_by q qs d ∙ ap (λ p. by_test p qs d) (has_name-same n q h) ∙ sym (lookup_by n qs d)
    where
      by_test : (EntryInfo → Bool) → List Text → DirEntry → Result TreeError DirEntry
      by_test p rest d =
          if not (is_directory (value d)) then err not_found else elim (find p (children d)) [
            | none ↦ err not_found
            | some c ↦ lookup_from fold rest c
          ]

      lookup_by :
          (x : Text) (rest : List Text) (e : DirEntry)
          → lookup_from fold (x ∷ rest) e ≡ by_test (has_name fold x) rest e
      lookup_by x rest e = unfold lookup_from child in refl

module _ (fold : ℕ → ℕ) (step : LeafStep) (s : Places fold step) where
  other_child :
      (n m q : Text) (ns : List Text) (i : EntryInfo) (cs : Forest EntryInfo)
      → Scalars n
      → equal_fold fold n q ≡ false
      → child fold q (walk_creating fold step (n ∷ m ∷ ns) (node i cs)).0 ≡ child fold q (node i cs)
  other_child n m q ns i cs sc other = elim (Option-cases (find (has_name fold n) cs)) [
    | inl gone ↦ rw (walk_gone fold step n m ns i cs gone) (
        unfold child in
        find-snoc_other (has_name fold q) cs _ (created-has_name fold step s n q m ns sc ∙ other))
    | inr (c, here) ↦ elim (Bool-cases (is_directory (value c))) [
      | inl inner ↦
          let named =
            has_name-found fold n q (value c) (find-fits (has_name fold n) cs c here) ∙ other in
          rw (walk_into fold step n m ns i cs c here inner) (
            unfold child in
            find-replace_other (has_name fold n) (has_name fold q) cs _ c here named
              (ap (has_name fold q) (walk_creating-value fold step s (m ∷ ns) c) ∙ named))
      | inr file ↦ rw (walk_blocked fold step n m ns i cs c here file)
    ]
  ]

  -- The walk has gone into the child `n`, and the lookup follows it there.
  same_child :
      (n m : Text) (ns qs : List Text) (i : EntryInfo) (cs : Forest EntryInfo)
      → Scalars n
      → is_directory i ≡ true
      → lookup_from fold qs (new_directory n) ≡ err not_found
      → ((d : DirEntry)
          → lookup_from fold qs (walk_creating fold step (m ∷ ns) d).0 ≡ lookup_from fold qs d)
      → lookup_from fold (n ∷ qs) (walk_creating fold step (n ∷ m ∷ ns) (node i cs)).0
        ≡ lookup_from fold (n ∷ qs) (node i cs)
  same_child n m ns qs i cs sc dir empty later = elim (Option-cases (find (has_name fold n) cs)) [
    | inl gone ↦ rw (walk_gone fold step n m ns i cs gone) (
        lookup_found fold n i _ qs _ dir (
          find-snoc_new (has_name fold n) cs _ gone
            (created-has_name fold step s n n m ns sc ∙ equal_fold_refl fold n))
        ∙ later (new_directory n)
        ∙ empty
        ∙ sym (lookup_gone fold n i cs qs gone))
    | inr (c, here) ↦ elim (Bool-cases (is_directory (value c))) [
      | inl inner ↦ rw (walk_into fold step n m ns i cs c here inner) (
          lookup_found fold n i _ qs _ dir (walked_into fold step s n m ns cs c here)
          ∙ later c
          ∙ sym (lookup_found fold n i cs qs c dir here))
      | inr file ↦ rw (walk_blocked fold step n m ns i cs c here file)
    ]
  ]

  -- In a file no component leads anywhere, before and after.
  in_file :
      (ns : List Text) (q : Text) (qs : List Text) (d : DirEntry)
      → is_directory (value d) ≡ false
      → lookup_from fold (q ∷ qs) (walk_creating fold step ns d).0 ≡ lookup_from fold (q ∷ qs) d
  unfolding lookup_from
  in_file ns q qs d file = rw (walk_creating-value fold step s ns d, file)

  pub walk_creating-frame :
      (ns qs : List Text) (d : DirEntry)
      → All Scalars ns
      → diverges fold ns qs ≡ true
      → lookup_from fold qs (walk_creating fold step ns d).0 ≡ lookup_from fold qs d
  walk_creating-frame [] qs d sc h = cc
  walk_creating-frame (n ∷ ns) [] d sc h = cc
  walk_creating-frame (n ∷ []) (q ∷ qs) d sc h = elim (Bool-cases (equal_fold fold n q)) [
    | inl same ↦ cc (rw same at h)
    | inr other ↦
        unfold walk_creating in
        lookup_same_child fold q qs _ d (s.keeps_value n d) (s.keeps_others n q d sc.0 other)
  ]
  walk_creating-frame (n ∷ m ∷ ns) (q ∷ []) (node i cs) sc h =
      elim (Bool-cases (equal_fold fold n q)) [
        | inl same ↦ cc (rw same at h)
        | inr other ↦
            lookup_same_child fold q [] _ (node i cs)
              (walk_creating-value fold step s (n ∷ m ∷ ns) (node i cs))
              (other_child n m q ns i cs sc.0 other)
      ]
  walk_creating-frame (n ∷ m ∷ ns) (q ∷ r ∷ qs) (node i cs) sc h =
      elim (Bool-cases (is_directory i)) [
        | inr file ↦ in_file (n ∷ m ∷ ns) q (r ∷ qs) (node i cs) file
        | inl dir ↦ elim (Bool-cases (equal_fold fold n q)) [
          | inr other ↦
              lookup_same_child fold q (r ∷ qs) _ (node i cs)
                (walk_creating-value fold step s (n ∷ m ∷ ns) (node i cs))
                (other_child n m q ns i cs sc.0 other)
          | inl same ↦
              let deeper : diverges fold (m ∷ ns) (r ∷ qs) ≡ true = rw same at h in
              lookup_same_fold fold n q (r ∷ qs) _ same
              ∙ same_child n m ns (r ∷ qs) i cs sc.0 dir (lookup_empty fold r qs n)
                  (λ d. walk_creating-frame (m ∷ ns) (r ∷ qs) d sc.1 deeper)
              ∙ sym (lookup_same_fold fold n q (r ∷ qs) (node i cs) same)
        ]
      ]
