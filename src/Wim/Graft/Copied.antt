-- ===== src/Wim/Graft/Copied.antt =====
-- What it is for an entry to be a copy of another, and what renumbering one id does.
use gowim.Base.{
  ℕ, zero, suc, ◌^◌, ◌<◌, ◌≤◌, true, List, [], ◌∷◌, ◌++◌, length, get_elem?, none, some, ◌≡◌, refl,
  arith, sym, Option-cases, inl, inr, append-nil,
}
use gowim.Rose.{node, Forest, nil, cons}
use gowim.Wim.Tree.Entry.{DirEntry, EntryInfo, SecurityId, no_security, index, other}
use gowim.Wim.Graft.{Remapper, same_id, assigned_to, to_int32, remap_known, remap}

-- Every index that the map gives is where `ids` holds the id.
abbrev pub WellMapped : Remapper → Type 0
WellMapped r =
    (s : SecurityId) (i : ℕ) → assigned_to s r.assigned ≡ some i → get_elem? r.ids i ≡ some s

-- The security id of a copy stands for that of its original.
abbrev pub Renumbered : List SecurityId → SecurityId → SecurityId → Type 0
Renumbered ids no_security t = t ≡ no_security
Renumbered ids s t = (i : ℕ) × (t ≡ index i) × (get_elem? ids i ≡ some s)

-- The copy has the shape of the original, and its fields but for the renumbered id.
abbrev mutual
  pub CopyOf : List SecurityId → DirEntry → DirEntry → Type 0
  CopyOf ids (node i cs) (node j ds) =
      Renumbered ids i.security_id j.security_id
      × (record i { security_id = no_security } ≡ record j { security_id = no_security })
      × CopiesOf ids cs ds

  pub CopiesOf : List SecurityId → Forest EntryInfo → Forest EntryInfo → Type 0
  CopiesOf ids nil nil = Unit
  CopiesOf ids nil (cons d ds) = ⊥
  CopiesOf ids (cons c cs) nil = ⊥
  CopiesOf ids (cons c cs) (cons d ds) = CopyOf ids c d × CopiesOf ids cs ds

get_elem?-append :
    (xs ys : List SecurityId) (i : ℕ) (s : SecurityId)
    → get_elem? xs i ≡ some s
    → get_elem? (xs ++ ys) i ≡ some s
get_elem?-append [] ys i s h = cc
get_elem?-append (x ∷ xs) ys zero s h = h
get_elem?-append (x ∷ xs) ys (suc i) s h = get_elem?-append xs ys i s h

get_elem?-last :
    (xs : List SecurityId) (s : SecurityId) → get_elem? (xs ++ (s ∷ [])) (length xs) ≡ some s
get_elem?-last [] s = refl
get_elem?-last (x ∷ xs) s = get_elem?-last xs s

get_elem?-lt :
    (xs : List SecurityId) (i : ℕ) (s : SecurityId) → get_elem? xs i ≡ some s → i < length xs
get_elem?-lt [] i s h = cc
get_elem?-lt (x ∷ xs) zero s h = omega arith
get_elem?-lt (x ∷ xs) (suc i) s h = omega (arith, get_elem?-lt xs i s h)

same_id-eq : (s t : SecurityId) → same_id s t ≡ true → s ≡ t
unfolding same_id
same_id-eq no_security no_security h = refl
same_id-eq (index m) (index n) h = ground arith
same_id-eq (other m) (other n) h = ground arith
same_id-eq no_security (index n) h = cc
same_id-eq no_security (other n) h = cc
same_id-eq (index m) no_security h = cc
same_id-eq (index m) (other n) h = cc
same_id-eq (other m) no_security h = cc
same_id-eq (other m) (index n) h = cc

-- What one renumbering does to the remapper, and the index that it gives.
record Step (s : SecurityId) (r r' : Remapper) (i : ℕ) : Type 0 where
  more : List SecurityId
  extends : r'.ids ≡ r.ids ++ more
  mapped : WellMapped r'
  at_index : get_elem? r'.ids i ≡ some s

remap_known-old :
    (s : SecurityId) (r : Remapper) (i : ℕ)
    → assigned_to s r.assigned ≡ some i
    → remap_known s r ≡ (r, i)
unfolding remap_known
remap_known-old s r i old = ground arith

remap_known-new :
    (s : SecurityId) (r : Remapper)
    → assigned_to s r.assigned ≡ none
    → remap_known s r ≡ (
      record { assigned = (s, length r.ids) ∷ r.assigned; ids = r.ids ++ (s ∷ []) },
      length r.ids,
    )
unfolding remap_known
remap_known-new s r new = ground arith

WellMapped-new :
    (s : SecurityId) (r : Remapper)
    → WellMapped r
    → WellMapped (record { assigned = (s, length r.ids) ∷ r.assigned; ids = r.ids ++ (s ∷ []) })
unfolding assigned_to
WellMapped-new s r w t j h =
    ground
      (arith, same_id-eq t s, get_elem?-last r.ids s, get_elem?-append r.ids (s ∷ []) j t, w t j)

remap_known-Step :
    (s : SecurityId) (r : Remapper)
    → WellMapped r
    → Step s r (remap_known s r).0 (remap_known s r).1
remap_known-Step s r w = elim (Option-cases (assigned_to s r.assigned)) [
  | inl new ↦ rw (remap_known-new s r new) (record {
    more = s ∷ [];
    extends = refl;
    mapped = WellMapped-new s r w;
    at_index = get_elem?-last r.ids s;
  })
  | inr (i, old) ↦
      rw (remap_known-old s r i old)
        (record { more = []; extends = sym (append-nil r.ids); mapped = w; at_index = w s i old })
]

to_int32_small : (i : ℕ) → i < 2 ^ 31 → to_int32 i ≡ index i
unfolding to_int32
to_int32_small i h = ground arith

-- What renumbering leaves, for any id.
pub record Remapped (s t : SecurityId) (r r' : Remapper) : Type 0 where
  pub more : List SecurityId
  pub extends : r'.ids ≡ r.ids ++ more
  pub mapped : WellMapped r'
  pub renumbered : Renumbered r'.ids s t

abbrev pub Fits : Remapper → Type 0
Fits r = length r.ids ≤ 2 ^ 31

known :
    (s : SecurityId) (r : Remapper)
    → WellMapped r
    → Fits (remap_known s r).0
    → (i : ℕ) × (to_int32 (remap_known s r).1 ≡ index i)
      × (get_elem? (remap_known s r).0.ids i ≡ some s)
known s r w f =
    let st = remap_known-Step s r w in
    let small = get_elem?-lt (remap_known s r).0.ids (remap_known s r).1 s st.at_index in
    ((remap_known s r).1, to_int32_small _ (omega arith), st.at_index)

pub remap-Remapped :
    (s : SecurityId) (r : Remapper)
    → WellMapped r
    → Fits (remap s r).0
    → Remapped s (remap s r).1 r (remap s r).0
unfolding remap
remap-Remapped no_security r w f = record {
  more = [];
  extends = sym (append-nil r.ids);
  mapped = w;
  renumbered = refl;
}
remap-Remapped (index n) r w f =
    let st = remap_known-Step (index n) r w in
    record {
      more = st.more;
      extends = st.extends;
      mapped = st.mapped;
      renumbered = known (index n) r w f;
    }
remap-Remapped (other n) r w f =
    let st = remap_known-Step (other n) r w in
    record {
      more = st.more;
      extends = st.extends;
      mapped = st.mapped;
      renumbered = known (other n) r w f;
    }

pub Renumbered-append :
    (ids more : List SecurityId) (s t : SecurityId)
    → Renumbered ids s t
    → Renumbered (ids ++ more) s t
Renumbered-append ids more no_security t h = h
Renumbered-append ids more (index n) t (i, e, h) = (i, e, get_elem?-append ids more i (index n) h)
Renumbered-append ids more (other n) t (i, e, h) = (i, e, get_elem?-append ids more i (other n) h)

mutual
  pub CopyOf-append :
      (ids more : List SecurityId) (d e : DirEntry) → CopyOf ids d e → CopyOf (ids ++ more) d e
  CopyOf-append ids more (node i cs) (node j ds) (s, f, k) = (
    Renumbered-append ids more i.security_id j.security_id s,
    f,
    CopiesOf-append ids more cs ds k,
  )

  pub CopiesOf-append :
      (ids more : List SecurityId) (cs ds : Forest EntryInfo)
      → CopiesOf ids cs ds
      → CopiesOf (ids ++ more) cs ds
  CopiesOf-append ids more nil nil k = tt
  CopiesOf-append ids more nil (cons d ds) k = absurd k
  CopiesOf-append ids more (cons c cs) nil k = absurd k
  CopiesOf-append ids more (cons c cs) (cons d ds) (h, k) =
      (CopyOf-append ids more c d h, CopiesOf-append ids more cs ds k)
