-- ===== src/Wim/Tree/Walk/Removed.antt =====
-- `Remove` as the caller sees it through `Lookup`. Where two siblings have names that fold alike,
-- removing the first uncovers the second, so the tree is one in which no siblings do.
use mathlib.Core.Path.{subst}
use gowim.Base.{
  ℕ, Bool, List, [], ◌∷◌, none, some, ok, err, ◌≡◌, refl, arith, ap, ◌∙◌, Option-cases, Bool-cases,
  inl, inr, sym,
}
use gowim.Text.{Text, split_path}
use gowim.Rose.{
  node, Forest, nil, cons, value, find, replace, remove, find-replace, find-remove-none,
  find-replace-none, find-fits,
}
use gowim.Wim.Tree.Entry.{DirEntry, EntryInfo, is_directory, has_name, name_utf8, child}
use gowim.Wim.Tree.Walk.Frame.{has_name-same}
use gowim.Wim.Tree.Walk.Steps.{lookup_found, lookup_gone, lookup_in_file}
use gowim.Wim.Tree.Walk.{not_found, lookup_from, lookup, remove_from, remove_at}

-- No two siblings anywhere have names that fold alike.
abbrev mutual
  pub Unique : (ℕ → ℕ) → DirEntry → Type 0
  Unique fold (node i cs) = UniqueAll fold cs

  pub UniqueAll : (ℕ → ℕ) → Forest EntryInfo → Type 0
  UniqueAll fold nil = Unit
  UniqueAll fold (cons c cs) =
      (find (has_name fold (name_utf8 (value c))) cs ≡ none) × Unique fold c × UniqueAll fold cs

module _ (fold : ℕ → ℕ) (n : Text) where
  abbrev p : EntryInfo → Bool
  p = has_name fold n

  find-remove : (cs : Forest EntryInfo) → UniqueAll fold cs → find p (remove p cs) ≡ none
  unfolding find remove
  find-remove nil u = refl
  find-remove (cons x cs) u = elim (Bool-cases (p (value x))) [
    | inl fits ↦
        let same = has_name-same fold (name_utf8 (value x)) n (unfold has_name in fits) in
        rw fits (ap (λ q. find q cs) same ∙ u.0)
    | inr other ↦ rw (other, find, other) (find-remove cs u.2)
  ]

  Unique-found :
      (cs : Forest EntryInfo) (c : DirEntry)
      → UniqueAll fold cs
      → find p cs ≡ some c
      → Unique fold c
  unfolding find
  Unique-found nil c u h = cc
  Unique-found (cons x cs) c u h = elim (Bool-cases (p (value x))) [
    | inl fits ↦ let e : x ≡ c = cc (rw fits at h) in subst (Unique fold) e u.1
    | inr other ↦ Unique-found cs c u.2 (rw other at h)
  ]

  UniqueAll-remove : (cs : Forest EntryInfo) → UniqueAll fold cs → UniqueAll fold (remove p cs)
  unfolding remove
  UniqueAll-remove nil u = tt
  UniqueAll-remove (cons x cs) u = elim (Bool-cases (p (value x))) [
    | inl fits ↦ rw fits u.2
    | inr other ↦ rw other (
      find-remove-none p (has_name fold (name_utf8 (value x))) cs u.0,
      u.1,
      UniqueAll-remove cs u.2,
    )
  ]

  UniqueAll-replace :
      (cs : Forest EntryInfo) (t c : DirEntry)
      → find p cs ≡ some c
      → value t ≡ value c
      → Unique fold t
      → UniqueAll fold cs
      → UniqueAll fold (replace p t cs)
  unfolding find replace
  UniqueAll-replace nil t c h e ut u = tt
  UniqueAll-replace (cons x cs) t c h e ut u = elim (Bool-cases (p (value x))) [
    | inl fits ↦
        let e' : x ≡ c = cc (rw fits at h) in
        let named = ap (λ i. find (has_name fold (name_utf8 i)) cs) (e ∙ ap value (sym e')) in
        rw fits (named ∙ u.0, ut, u.2)
    | inr other ↦ rw other (
      find-replace-none p (has_name fold (name_utf8 (value x))) cs t c (rw other at h) e u.0,
      u.1,
      UniqueAll-replace cs t c (rw other at h) e ut u.2,
    )
  ]

module _ (fold : ℕ → ℕ) where
  remove_last :
      (n : Text) (i : EntryInfo) (cs : Forest EntryInfo) (c : DirEntry)
      → find (has_name fold n) cs ≡ some c
      → remove_from fold (n ∷ []) (node i cs) ≡ (node i (remove (has_name fold n) cs), ok tt)
  unfolding remove_from child
  remove_last n i cs c here = rw (here, remove_from)

  remove_into :
      (n m : Text) (ns : List Text) (i : EntryInfo) (cs : Forest EntryInfo) (c : DirEntry)
      → find (has_name fold n) cs ≡ some c
      → remove_from fold (n ∷ m ∷ ns) (node i cs) ≡ (
        node i (replace (has_name fold n) (remove_from fold (m ∷ ns) c).0 cs),
        (remove_from fold (m ∷ ns) c).1,
      )
  unfolding remove_from child
  remove_into n m ns i cs c here = rw (here, remove_from)

  remove_gone :
      (n : Text) (ns : List Text) (i : EntryInfo) (cs : Forest EntryInfo)
      → find (has_name fold n) cs ≡ none
      → remove_from fold (n ∷ ns) (node i cs) ≡ (node i cs, err not_found)
  unfolding remove_from child
  remove_gone n [] i cs gone = rw (gone, remove_from)
  remove_gone n (m ∷ ns) i cs gone = rw (gone, remove_from)

  remove_from-value : (ns : List Text) (d : DirEntry) → value (remove_from fold ns d).0 ≡ value d
  unfolding remove_from child
  remove_from-value [] d = refl
  remove_from-value (n ∷ []) (node i cs) = ground arith
  remove_from-value (n ∷ m ∷ ns) (node i cs) = ground arith

  remove_from-Unique :
      (ns : List Text) (d : DirEntry) → Unique fold d → Unique fold (remove_from fold ns d).0
  remove_from-Unique [] d u = unfold remove_from in u
  remove_from-Unique (n ∷ []) (node i cs) u = elim (Option-cases (find (has_name fold n) cs)) [
    | inl gone ↦ rw (remove_gone n [] i cs gone) u
    | inr (c, here) ↦ rw (remove_last n i cs c here) (UniqueAll-remove fold n cs u)
  ]
  remove_from-Unique (n ∷ m ∷ ns) (node i cs) u = elim (Option-cases (find (has_name fold n) cs)) [
    | inl gone ↦ rw (remove_gone n (m ∷ ns) i cs gone) u
    | inr (c, here) ↦ rw (remove_into n m ns i cs c here) (
        UniqueAll-replace fold n cs _ c here (remove_from-value (m ∷ ns) c)
          (remove_from-Unique (m ∷ ns) c (Unique-found fold n cs c u here)) u)
  ]

  replaced :
      (n m : Text) (ns : List Text) (cs : Forest EntryInfo) (c : DirEntry)
      → find (has_name fold n) cs ≡ some c
      → find (has_name fold n) (replace (has_name fold n) (remove_from fold (m ∷ ns) c).0 cs)
        ≡ some (remove_from fold (m ∷ ns) c).0
  replaced n m ns cs c here =
      find-replace (has_name fold n) cs _ c here (
        ap (has_name fold n) (remove_from-value (m ∷ ns) c) ∙ find-fits (has_name fold n) cs c here)

  -- Under a component found or not, in a directory or not, a lookup that leads nowhere below does.
  lookup_nowhere :
      (n : Text) (ns : List Text) (i : EntryInfo) (cs : Forest EntryInfo) (c : DirEntry)
      → find (has_name fold n) cs ≡ some c
      → lookup_from fold ns c ≡ err not_found
      → lookup_from fold (n ∷ ns) (node i cs) ≡ err not_found
  lookup_nowhere n ns i cs c here below = elim (Bool-cases (is_directory i)) [
    | inl dir ↦ lookup_found fold n i cs ns c dir here ∙ below
    | inr file ↦ lookup_in_file fold n i cs ns file
  ]

  lookup-remove_from :
      (ns : List Text) (d : DirEntry)
      → Unique fold d
      → (remove_from fold ns d).1 ≡ ok tt
      → lookup_from fold ns (remove_from fold ns d).0 ≡ err not_found
  lookup-remove_from [] d u h = unfold remove_from in cc
  lookup-remove_from (n ∷ []) (node i cs) u h = elim (Option-cases (find (has_name fold n) cs)) [
    | inl gone ↦ absurd (cc (rw (remove_gone n [] i cs gone) at h))
    | inr (c, here) ↦
        rw (remove_last n i cs c here) (lookup_gone fold n i _ [] (find-remove fold n cs u))
  ]
  lookup-remove_from (n ∷ m ∷ ns) (node i cs) u h =
      elim (Option-cases (find (has_name fold n) cs)) [
        | inl gone ↦ absurd (cc (rw (remove_gone n (m ∷ ns) i cs gone) at h))
        | inr (c, here) ↦
            let into = remove_into n m ns i cs c here in
            let below =
              lookup-remove_from (m ∷ ns) c (Unique-found fold n cs c u here) (rw into at h) in
            rw into (lookup_nowhere n (m ∷ ns) i _ _ (replaced n m ns cs c here) below)
      ]

-- In a tree where no two siblings have names that fold alike, a path that `Remove` has removed is
-- not found any more, and the tree that it leaves is such a tree again.
pub lookup-remove_at :
    (fold : ℕ → ℕ) (path : Text) (d : DirEntry)
    → Unique fold d
    → (remove_at fold path d).1 ≡ ok tt
    → (lookup fold path (remove_at fold path d).0 ≡ err not_found)
      × Unique fold (remove_at fold path d).0
unfolding lookup remove_at
lookup-remove_at fold path d u h =
    (lookup-remove_from fold (split_path path) d u h, remove_from-Unique fold (split_path path) d u)
