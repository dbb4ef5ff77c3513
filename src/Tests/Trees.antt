-- ===== src/Tests/Trees.antt =====
-- The operations on an image's tree, and the copying of subtrees, at concrete inputs.
use gowim.Base.{
  ℕ, ◌≤◌, ◌^◌, ◌≡◌, refl, arith, List, [], ◌∷◌, ◌++◌, length, none, some, ok, err, replicate, true,
}
use gowim.Bytes.{Bytes, eq_bytes, byte, join2}
use gowim.Text.{
  Text, split_path, split_onto, equal_fold, fold_key, string_to_utf16le, encode_runes, encode_rune,
  units_to_bytes, utf16le_to_string, decode_units, bytes_to_units, upper, is_ascii-IsAscii,
  ascii-IsScalar,
}
use gowim.Rose.{node, Forest, nil, cons, value, children, find, snoc, replace, remove}
use gowim.Wim.Resource.{has_flag}
use gowim.Wim.Security.{Descriptors}
use gowim.Wim.Tree.Entry.{
  DirEntry, EntryInfo, SecurityId, index, other, zero_info, main_hash, is_directory, child,
  has_name, name_utf8,
}
use gowim.Wim.Tree.Walk.{
  walk_creating, add_leaf, attach_leaf, remove_from, not_found, not_a_directory, already_exists,
  lookup, add, attach_at, remove_at, new_file,
}
use gowim.Wim.Tree.Walk.Atomic.{add-atomic}
use gowim.Wim.Tree.Walk.Lookup.{Scalars, diverges}
use gowim.Wim.Tree.Walk.Placed.{lookup-add, lookup-add_other, lookup-attach_at}
use gowim.Wim.Tree.Walk.Removed.{Unique, lookup-remove_at}
use gowim.Wim.Graft.{
  assigned_to, remap, remap_known, same_id, Remapper, copy, below_len, descriptor_at, donated,
  build_from, build_security_data,
}
use gowim.Wim.Graft.Copied.{WellMapped, CopyOf}
use gowim.Wim.Graft.Kept.{copy-CopyOf}
use gowim.Wim.Graft.Built.{KeepsOwn, build_security_data-copy}

abbrev name_a : Text
name_a = b'a' ∷ []

abbrev path_ab : Text
path_ab = b'a' ∷ b'\\' ∷ b'b' ∷ []

abbrev path_ac : Text
path_ac = b'/' ∷ b'A' ∷ b'/' ∷ b'c' ∷ []

path_ab-Scalars : Scalars path_ab
path_ab-Scalars = ascii-IsScalar path_ab (is_ascii-IsAscii path_ab refl)

abbrev hash : Bytes
hash = replicate 20 9

abbrev directory : Text → ℕ → Forest EntryInfo → DirEntry
directory name id cs =
    node
      (record zero_info {
        attributes = 0x10;
        security_id = index id;
        name = string_to_utf16le name;
      })
      cs

-- A root with a directory a, which holds a file c.
abbrev root : DirEntry
root = directory [] 0 (cons (directory name_a 5 (cons (new_file (b'c' ∷ []) hash) nil)) nil)

root-directory : is_directory (value root) ≡ true
unfolding is_directory has_flag
root-directory = refl

parted : diverges upper (split_path path_ab) (split_path path_ac) ≡ true
unfolding split_path split_onto equal_fold fold_key eq_bytes
parted = refl

add_run : (add upper path_ab hash root).1 ≡ ok (new_file (b'b' ∷ []) hash)
unfolding add add_leaf split_path split_onto walk_creating child has_name name_utf8 equal_fold
    fold_key eq_bytes find snoc is_directory has_flag string_to_utf16le encode_runes encode_rune
    units_to_bytes byte utf16le_to_string decode_units bytes_to_units join2
add_run = refl

attach_run : (attach_at upper path_ab root root).1 ≡ ok tt
unfolding attach_at attach_leaf split_path split_onto walk_creating child has_name name_utf8
    equal_fold fold_key eq_bytes find snoc is_directory has_flag string_to_utf16le encode_runes
    encode_rune units_to_bytes byte utf16le_to_string decode_units bytes_to_units join2
attach_run = refl

add_fails : (add upper (b'a' ∷ b'/' ∷ b'c' ∷ b'/' ∷ b'd' ∷ []) hash root).1 ≡ err not_a_directory
unfolding add add_leaf split_path split_onto walk_creating child has_name name_utf8 equal_fold
    fold_key eq_bytes find snoc is_directory has_flag string_to_utf16le encode_runes encode_rune
    units_to_bytes byte utf16le_to_string decode_units bytes_to_units join2
add_fails = refl

attach_fails : (attach_at upper path_ac root root).1 ≡ err already_exists
unfolding attach_at attach_leaf split_path split_onto walk_creating child has_name name_utf8
    equal_fold fold_key eq_bytes find snoc is_directory has_flag string_to_utf16le encode_runes
    encode_rune units_to_bytes byte utf16le_to_string decode_units bytes_to_units join2
attach_fails = refl

remove_fails : (remove_at upper path_ab root).1 ≡ err not_found
unfolding remove_at remove_from remove replace split_path split_onto walk_creating child has_name
    name_utf8 equal_fold fold_key eq_bytes find snoc is_directory has_flag string_to_utf16le
    encode_runes encode_rune units_to_bytes byte utf16le_to_string decode_units bytes_to_units join2
remove_fails = refl

remove_run : (remove_at upper path_ac root).1 ≡ ok tt
unfolding remove_at remove_from remove replace split_path split_onto walk_creating child has_name
    name_utf8 equal_fold fold_key eq_bytes find snoc is_directory has_flag string_to_utf16le
    encode_runes encode_rune units_to_bytes byte utf16le_to_string decode_units bytes_to_units join2
remove_run = refl

root-Unique : Unique upper root
unfolding find
root-Unique = (refl, (refl, tt, tt), tt)

add-atomic_example : (add upper (b'a' ∷ b'/' ∷ b'c' ∷ b'/' ∷ b'd' ∷ []) hash root).0 ≡ root
add-atomic_example =
    add-atomic upper (b'a' ∷ b'/' ∷ b'c' ∷ b'/' ∷ b'd' ∷ []) hash root not_a_directory add_fails

lookup-remove_at_example :
    (lookup upper path_ac (remove_at upper path_ac root).0 ≡ err not_found)
    × Unique upper (remove_at upper path_ac root).0
lookup-remove_at_example = lookup-remove_at upper path_ac root root-Unique remove_run

lookup-add_example :
    (lookup upper path_ab (add upper path_ab hash root).0 ≡ ok (new_file (b'b' ∷ []) hash))
    × (main_hash (value (new_file (b'b' ∷ []) hash)) ≡ hash)
lookup-add_example =
    lookup-add upper path_ab hash root (new_file (b'b' ∷ []) hash) path_ab-Scalars root-directory
      add_run

lookup-add_other_example :
    lookup upper path_ac (add upper path_ab hash root).0 ≡ lookup upper path_ac root
lookup-add_other_example = lookup-add_other upper path_ab path_ac hash root path_ab-Scalars parted

lookup-attach_at_example :
    lookup upper path_ab (attach_at upper path_ab root root).0
    ≡ ok (node (record (value root) { name = b'b' ∷ 0 ∷ [] }) (children root))
unfolding split_path split_onto string_to_utf16le encode_runes encode_rune units_to_bytes byte
lookup-attach_at_example =
    lookup-attach_at upper path_ab root root path_ab-Scalars root-directory attach_run

abbrev remapper : Remapper
remapper = record { assigned = []; ids = [] }

remapper-WellMapped : WellMapped remapper
unfolding assigned_to
remapper-WellMapped = λ s i h. cc

root_copies : length (copy remapper root).0.ids ≤ 2 ^ 31
unfolding copy remap remap_known assigned_to same_id
root_copies = omega arith

copy-CopyOf_example :
    CopyOf (copy remapper root).0.ids root (copy remapper root).1
    × WellMapped (copy remapper root).0
    × ((more : List SecurityId) × ((copy remapper root).0.ids ≡ [] ++ more))
copy-CopyOf_example = copy-CopyOf remapper root remapper-WellMapped root_copies

abbrev donor : Descriptors
donor = (1 ∷ 2 ∷ []) ∷ (3 ∷ []) ∷ []

-- The remapper after the copy of the root and of one more entry, with descriptor 1.
abbrev copied_on : Remapper
copied_on = record {
  assigned = (index 1, 2) ∷ (copy remapper root).0.assigned;
  ids = (copy remapper root).0.ids ++ (index 1 ∷ []);
}

build_security_data-copy_example :
    (out : Descriptors) × (build_security_data copied_on (some donor) ≡ some out)
    × (length out ≡ length copied_on.ids)
    × KeepsOwn (some donor) out root (copy remapper root).1
unfolding copy remap remap_known assigned_to same_id
build_security_data-copy_example =
    build_security_data-copy remapper copied_on (some donor) root (index 1 ∷ []) remapper-WellMapped
      root_copies refl (tt, (tt, (tt, tt)))

-- Descriptor 5, of the directory, is past the donor's end.
copied_on_run :
    build_security_data copied_on (some donor) ≡ some ((1 ∷ 2 ∷ []) ∷ [] ∷ (3 ∷ []) ∷ [])
unfolding copy remap remap_known assigned_to same_id build_security_data build_from donated
    below_len descriptor_at
copied_on_run = refl

abbrev negative_id : Remapper
negative_id = record { assigned = (other 0, 0) ∷ []; ids = other 0 ∷ [] }

-- A panic.
negative_id_run : build_security_data negative_id (some donor) ≡ none
unfolding build_security_data build_from donated below_len descriptor_at
negative_id_run = refl
