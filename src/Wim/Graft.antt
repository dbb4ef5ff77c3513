-- ===== src/Wim/Graft.antt =====
-- wim/graft.go: `SecurityRemapper`, which copies subtrees into another image and renumbers the
-- security descriptors that they use. (`AttachAt` is in Wim/Tree/Walk.antt.)
pub mod Copied
pub mod Kept
pub mod Built
use gowim.Base.{
  ℕ, ◌+◌, ◌-◌, ◌%◌, ◌^◌, Bool, true, false, List, [], ◌∷◌, ◌++◌, length, get_elem?, Option, none,
  some, ltb, ◌==◌, if◌then◌else◌,
}
use gowim.Bytes.{Bytes}
use gowim.Rose.{Tree, node, Forest, nil, cons}
use gowim.Wim.Security.{Descriptors}
use gowim.Wim.Tree.Entry.{DirEntry, EntryInfo, SecurityId, no_security, index, other}

-- The map `index` is an association list; `ids` has the source ids in output order.
pub record Remapper : Type 0 where
  pub assigned : List (SecurityId × ℕ)
  pub ids : List SecurityId

unfoldable pub new_remapper : Remapper
new_remapper = record { assigned = []; ids = [] }

unfoldable pub same_id : SecurityId → SecurityId → Bool
same_id no_security no_security = true
same_id (index m) (index n) = m == n
same_id (other m) (other n) = m == n
same_id _ _ = false

unfoldable pub assigned_to : SecurityId → List (SecurityId × ℕ) → Option ℕ
unfolding same_id
assigned_to s [] = none
assigned_to s ((t, i) ∷ m) = if same_id s t then some i else assigned_to s m

-- `int32(n)`.
unfoldable pub to_int32 : ℕ → SecurityId
to_int32 n =
    let w = n % 2 ^ 32 in
    if ltb w (2 ^ 31)
    then index w
    else if w == 2 ^ 32 - 1
    then no_security
    else other (2 ^ 32 - 2 - w)

-- An id that is not `SecurityIDNone`, renumbered: its index, and the remapper after it.
unfoldable pub remap_known : SecurityId → Remapper → Remapper × ℕ
unfolding assigned_to
remap_known s r = elim (assigned_to s r.assigned) [
  | some i ↦ (r, i)
  | none ↦
      (record { assigned = (s, length r.ids) ∷ r.assigned; ids = r.ids ++ (s ∷ []) }, length r.ids)
]

unfoldable pub remap : SecurityId → Remapper → Remapper × SecurityId
unfolding remap_known to_int32
remap no_security r = (r, no_security)
remap s r = let (r', i) = remap_known s r in (r', to_int32 i)

unfoldable mutual
  unfolding remap

  -- `Copy`; the children are copied in order, after the entry itself has been renumbered.
  pub copy : Remapper → DirEntry → Remapper × DirEntry
  copy r (node i cs) =
      let (r', s) = remap i.security_id r in
      let (r'', cs') = copy_all r' cs in (r'', node (record i { security_id = s }) cs')

  pub copy_all : Remapper → Forest EntryInfo → Remapper × Forest EntryInfo
  copy_all r nil = (r, nil)
  copy_all r (cons c cs) =
      let (r', c') = copy r c in let (r'', cs') = copy_all r' cs in (r'', cons c' cs')

-- The test `int(origID) < len(donor.Descriptors)`: a negative id is below every length.
unfoldable pub below_len : SecurityId → ℕ → Bool
below_len (index n) len = ltb n len
below_len no_security len = true
below_len (other n) len = true

-- `donor.Descriptors[origID]`, or a panic (`none`) out of range: behind the end or negative.
unfoldable pub descriptor_at : Descriptors → SecurityId → Option Bytes
descriptor_at ds (index n) = get_elem? ds n
descriptor_at ds no_security = none
descriptor_at ds (other n) = none

-- One descriptor of `BuildSecurityData`.
unfoldable pub donated : Option Descriptors → SecurityId → Option Bytes
unfolding below_len descriptor_at
donated none s = some []
donated (some ds) s = if below_len s (length ds) then descriptor_at ds s else some []

unfoldable pub build_from : Option Descriptors → List SecurityId → Option Descriptors
unfolding donated
build_from donor [] = some []
build_from donor (s ∷ ss) = elim (donated donor s) [
  | none ↦ none
  | some d ↦ elim (build_from donor ss) [ none ↦ none | some ds ↦ some (d ∷ ds) ]
]

unfoldable pub build_security_data : Remapper → Option Descriptors → Option Descriptors
unfolding build_from
build_security_data r donor = build_from donor r.ids
