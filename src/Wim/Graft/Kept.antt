-- ===== src/Wim/Graft/Kept.antt =====
-- A copied subtree keeps its shape and its fields, and its ids stand for those of the original.
use gowim.Base.{
  ◌^◌, ◌≤◌, List, [], ◌∷◌, ◌++◌, length, ◌≡◌, refl, arith, ap, sym, ◌∙◌, length-append,
  append_assoc, append-nil,
}
use gowim.Rose.{node, Forest, nil, cons}
use gowim.Wim.Tree.Entry.{DirEntry, EntryInfo, SecurityId, no_security, index, other}
use gowim.Wim.Graft.{Remapper, remap_known, remap, copy, copy_all}
use gowim.Wim.Graft.Copied.{
  WellMapped, CopyOf, CopiesOf, Fits, remap-Remapped, Renumbered-append, CopyOf-append,
}

remap-grows : (s : SecurityId) (r : Remapper) → length r.ids ≤ length (remap s r).0.ids
unfolding remap remap_known
remap-grows no_security r = omega arith
remap-grows (index n) r = ground (arith, length-append r.ids (index n ∷ []))
remap-grows (other n) r = ground (arith, length-append r.ids (other n ∷ []))

-- The ids only grow, so a bound on them at the end is one all along.
mutual
  unfolding copy copy_all

  copy-grows : (r : Remapper) (d : DirEntry) → length r.ids ≤ length (copy r d).0.ids
  copy-grows r (node i cs) =
      omega (arith, remap-grows i.security_id r, copy_all-grows (remap i.security_id r).0 cs)

  copy_all-grows :
      (r : Remapper) (cs : Forest EntryInfo) → length r.ids ≤ length (copy_all r cs).0.ids
  copy_all-grows r nil = omega arith
  copy_all-grows r (cons c cs) = omega (arith, copy-grows r c, copy_all-grows (copy r c).0 cs)

-- What `Copy` leaves: the ids extended, the map still right, and a copy of the subtree.
record Copied (r r' : Remapper) (P : Type 0) : Type 0 where
  more : List SecurityId
  extends : r'.ids ≡ r.ids ++ more
  mapped : WellMapped r'
  is_copy : P

mutual
  unfolding copy copy_all

  copy-Copied :
      (r : Remapper) (d : DirEntry)
      → WellMapped r
      → Fits (copy r d).0
      → Copied r (copy r d).0 (CopyOf (copy r d).0.ids d (copy r d).1)
  copy-Copied r (node i cs) w f =
      let first =
        remap-Remapped i.security_id r w
          (omega (arith, copy_all-grows (remap i.security_id r).0 cs)) in
      let rest = copy_all-Copied (remap i.security_id r).0 cs first.mapped f in
      record {
        more = first.more ++ rest.more;
        extends =
            rest.extends
            ∙ ap (λ l. l ++ rest.more) first.extends
            ∙ append_assoc r.ids first.more rest.more;
        mapped = rest.mapped;
        is_copy = (
          rw rest.extends (Renumbered-append _ rest.more i.security_id _ first.renumbered),
          refl,
          rest.is_copy,
        );
      }

  copy_all-Copied :
      (r : Remapper) (cs : Forest EntryInfo)
      → WellMapped r
      → Fits (copy_all r cs).0
      → Copied r (copy_all r cs).0 (CopiesOf (copy_all r cs).0.ids cs (copy_all r cs).1)
  copy_all-Copied r nil w f = record {
    more = [];
    extends = sym (append-nil r.ids);
    mapped = w;
    is_copy = tt;
  }
  copy_all-Copied r (cons c cs) w f =
      let first = copy-Copied r c w (omega (arith, copy_all-grows (copy r c).0 cs)) in
      let rest = copy_all-Copied (copy r c).0 cs first.mapped f in
      record {
        more = first.more ++ rest.more;
        extends =
            rest.extends
            ∙ ap (λ l. l ++ rest.more) first.extends
            ∙ append_assoc r.ids first.more rest.more;
        mapped = rest.mapped;
        is_copy = (rw rest.extends (CopyOf-append _ rest.more c _ first.is_copy), rest.is_copy);
      }

-- `Copy` gives a subtree of the same shape with the same fields, in which each entry without a
-- descriptor has none, and every other entry the index at which the remapper's ids hold its
-- original id. Earlier ids keep their index, so subtrees copied before stay right too. The
-- remapper holds at most 2^31 ids, the range of an int32.
pub copy-CopyOf :
    (r : Remapper) (d : DirEntry)
    → WellMapped r
    → length (copy r d).0.ids ≤ 2 ^ 31
    → CopyOf (copy r d).0.ids d (copy r d).1
      × WellMapped (copy r d).0
      × ((more : List SecurityId) × ((copy r d).0.ids ≡ r.ids ++ more))
copy-CopyOf r d w f = let c = copy-Copied r d w f in (c.is_copy, c.mapped, (c.more, c.extends))
