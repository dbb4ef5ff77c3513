-- ===== src/Wim/Graft/Built.antt =====
-- The descriptors that `BuildSecurityData` gives the copies: each copied entry keeps its own.
use gowim.Base.{
  subst, ℕ, zero, suc, ◌^◌, ◌<◌, ◌≤◌, List, [], ◌∷◌, ◌++◌, length, get_elem?, Option, none, some,
  ◌≡◌, refl, arith, ap, sym, All, Option-cases, inl, inr,
}
use gowim.Bytes.{Bytes}
use gowim.Rose.{node, Forest, nil, cons}
use gowim.Wim.Security.{Descriptors}
use gowim.Wim.Tree.Entry.{DirEntry, EntryInfo, SecurityId, no_security, index, other}
use gowim.Wim.Graft.{Remapper, copy, donated, build_from, build_security_data}
use gowim.Wim.Graft.Copied.{WellMapped, CopyOf, CopiesOf, Renumbered, CopyOf-append}
use gowim.Wim.Graft.Kept.{copy-CopyOf}

-- The ids are indices of descriptors, not the negative ids that `int(origID)` lets through.
abbrev pub IsIndex : SecurityId → Type 0
IsIndex (index n) = Unit
IsIndex _ = ⊥

-- The descriptor that an id stands for in the donor; an index past its end stands for none.
abbrev pub descriptor : Option Descriptors → SecurityId → Bytes
descriptor none s = []
descriptor (some ds) (index n) = elim (get_elem? ds n) [ none ↦ [] | some d ↦ d ]
descriptor (some ds) _ = []

get_elem?-none : (ds : Descriptors) (n : ℕ) → get_elem? ds n ≡ none → length ds ≤ n
get_elem?-none [] n h = omega arith
get_elem?-none (d ∷ ds) zero h = cc
get_elem?-none (d ∷ ds) (suc n) h = omega (arith, get_elem?-none ds n h)

get_elem?-below : (ds : Descriptors) (n : ℕ) (d : Bytes) → get_elem? ds n ≡ some d → n < length ds
get_elem?-below [] n d h = cc
get_elem?-below (x ∷ ds) zero d h = omega arith
get_elem?-below (x ∷ ds) (suc n) d h = omega (arith, get_elem?-below ds n d h)

donated-index :
    (donor : Option Descriptors) (s : SecurityId)
    → IsIndex s
    → donated donor s ≡ some (descriptor donor s)
unfolding donated
donated-index none s h = refl
donated-index (some ds) (index n) h = elim (Option-cases (get_elem? ds n)) [
  | inl gone ↦ ground (arith, get_elem?-none ds n gone)
  | inr (d, here) ↦ ground (arith, get_elem?-below ds n d here)
]
donated-index (some ds) no_security h = absurd h
donated-index (some ds) (other n) h = absurd h

abbrev descriptors : Option Descriptors → List SecurityId → Descriptors
descriptors donor [] = []
descriptors donor (s ∷ ss) = descriptor donor s ∷ descriptors donor ss

build_from-descriptors :
    (donor : Option Descriptors) (ss : List SecurityId)
    → All IsIndex ss
    → build_from donor ss ≡ some (descriptors donor ss)
unfolding build_from
build_from-descriptors donor [] h = refl
build_from-descriptors donor (s ∷ ss) h =
    ground (arith, donated-index donor s h.0, build_from-descriptors donor ss h.1)

get_elem?-descriptors :
    (donor : Option Descriptors) (ss : List SecurityId) (i : ℕ) (s : SecurityId)
    → get_elem? ss i ≡ some s
    → get_elem? (descriptors donor ss) i ≡ some (descriptor donor s)
get_elem?-descriptors donor [] i s h = cc
get_elem?-descriptors donor (x ∷ ss) zero s h = let e : x ≡ s = cc in rw e
get_elem?-descriptors donor (x ∷ ss) (suc i) s h = get_elem?-descriptors donor ss i s h

length-descriptors :
    (donor : Option Descriptors) (ss : List SecurityId) → length (descriptors donor ss) ≡ length ss
length-descriptors donor [] = refl
length-descriptors donor (s ∷ ss) = ap suc (length-descriptors donor ss)

-- `BuildSecurityData` on ids that are all indices returns a table as long as the ids, whose entry
-- `i` is the donor's descriptor for id number `i`, empty where the donor has none.
pub build_security_data_lem :
    (r : Remapper) (donor : Option Descriptors) (i : ℕ) (s : SecurityId)
    → All IsIndex r.ids
    → get_elem? r.ids i ≡ some s
    → (out : Descriptors) × (build_security_data r donor ≡ some out)
      × (length out ≡ length r.ids)
      × (get_elem? out i ≡ some (descriptor donor s))
unfolding build_security_data
build_security_data_lem r donor i s h e = (
  descriptors donor r.ids,
  build_from-descriptors donor r.ids h,
  length-descriptors donor r.ids,
  get_elem?-descriptors donor r.ids i s e,
)

build_from-panics :
    (ds : Descriptors) (ss : List SecurityId) (i n : ℕ)
    → get_elem? ss i ≡ some (other n)
    → build_from (some ds) ss ≡ none
unfolding build_from donated
build_from-panics ds [] i n h = cc
build_from-panics ds (s ∷ ss) zero n h = let e : s ≡ other n = cc in rw e
build_from-panics ds (s ∷ ss) (suc i) n h = ground (arith, build_from-panics ds ss i n h)

-- With a donor, `BuildSecurityData` panics as soon as one of the ids is negative, other than -1:
-- the test `int(origID) < len(donor.Descriptors)` lets it through to the index.
pub build_security_data-panics :
    (r : Remapper) (ds : Descriptors) (i n : ℕ)
    → get_elem? r.ids i ≡ some (other n)
    → build_security_data r (some ds) ≡ none
unfolding build_security_data
build_security_data-panics r ds i n h = build_from-panics ds r.ids i n h

-- The descriptor of an entry with this id, and nothing for one that has none.
abbrev pub own : Option Descriptors → SecurityId → Option Bytes
own donor no_security = none
own donor (index n) = some (descriptor donor (index n))
own donor (other n) = none

-- Every entry of a copy has in `out` the descriptor that its original has in `donor`.
abbrev mutual
  pub KeepsOwn : Option Descriptors → Descriptors → DirEntry → DirEntry → Type 0
  KeepsOwn donor out (node i cs) (node j ds) =
      (own (some out) j.security_id ≡ own donor i.security_id) × KeepAllOwn donor out cs ds

  pub KeepAllOwn : Option Descriptors → Descriptors → Forest EntryInfo → Forest EntryInfo → Type 0
  KeepAllOwn donor out nil nil = Unit
  KeepAllOwn donor out nil (cons d ds) = ⊥
  KeepAllOwn donor out (cons c cs) nil = ⊥
  KeepAllOwn donor out (cons c cs) (cons d ds) = KeepsOwn donor out c d × KeepAllOwn donor out cs ds

All-get_elem? :
    (ids : List SecurityId) (i : ℕ) (s : SecurityId)
    → All IsIndex ids
    → get_elem? ids i ≡ some s
    → IsIndex s
All-get_elem? [] i s h e = absurd (cc)
All-get_elem? (x ∷ ids) zero s h e = let same : x ≡ s = cc in (subst IsIndex same h.0)
All-get_elem? (x ∷ ids) (suc i) s h e = All-get_elem? ids i s h.1 e

module _ (donor : Option Descriptors) (ids : List SecurityId) (h : All IsIndex ids) where
  own-Renumbered :
      (s t : SecurityId) → Renumbered ids s t → own (some (descriptors donor ids)) t ≡ own donor s
  own-Renumbered no_security t e = rw e refl
  own-Renumbered (index n) t (i, e, at) = rw e (
      ap (λ (o : Option Bytes). some (elim o [ none ↦ [] | some d ↦ d ]))
        (get_elem?-descriptors donor ids i (index n) at))
  own-Renumbered (other n) t (i, e, at) = absurd (All-get_elem? ids i (other n) h at)

  mutual
    CopyOf-KeepsOwn : (d e : DirEntry) → CopyOf ids d e → KeepsOwn donor (descriptors donor ids) d e
    CopyOf-KeepsOwn (node i cs) (node j ds) (s, f, k) =
        (own-Renumbered i.security_id j.security_id s, CopiesOf-KeepAllOwn cs ds k)

    CopiesOf-KeepAllOwn :
        (cs ds : Forest EntryInfo)
        → CopiesOf ids cs ds
        → KeepAllOwn donor (descriptors donor ids) cs ds
    CopiesOf-KeepAllOwn nil nil k = tt
    CopiesOf-KeepAllOwn nil (cons d ds) k = absurd k
    CopiesOf-KeepAllOwn (cons c cs) nil k = absurd k
    CopiesOf-KeepAllOwn (cons c cs) (cons d ds) (k, ks) =
        (CopyOf-KeepsOwn c d k, CopiesOf-KeepAllOwn cs ds ks)

-- A subtree is copied, perhaps others behind it, whose ids follow, and then `BuildSecurityData` is
-- called with a donor or without one. If none of the remapper's ids is negative, it returns a table,
-- as long as the ids, in which each entry of the copy finds under its new id the descriptor that its
-- original has in the donor, empty where the donor has none; an entry without a security id has none
-- in the copy either. The copy adds at most 2^31 ids, the range of an int32.
pub build_security_data-copy :
    (r r' : Remapper) (donor : Option Descriptors) (d : DirEntry) (more : List SecurityId)
    → WellMapped r
    → length (copy r d).0.ids ≤ 2 ^ 31
    → r'.ids ≡ (copy r d).0.ids ++ more
    → All IsIndex r'.ids
    → (out : Descriptors) × (build_security_data r' donor ≡ some out)
      × (length out ≡ length r'.ids)
      × KeepsOwn donor out d (copy r d).1
unfolding build_security_data
build_security_data-copy r r' donor d more w f later h =
    let is_copy = CopyOf-append (copy r d).0.ids more d (copy r d).1 (copy-CopyOf r d w f).0 in
    (
      descriptors donor r'.ids,
      build_from-descriptors donor r'.ids h,
      length-descriptors donor r'.ids,
      CopyOf-KeepsOwn donor r'.ids h d (copy r d).1
          (subst (λ (l : List SecurityId). CopyOf l d (copy r d).1) (sym later) is_copy),
    )
