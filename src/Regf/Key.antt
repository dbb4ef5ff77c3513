-- ===== src/Regf/Key.antt =====
-- regf/nk.go's `Key` and regf/key.go's operations on a key, its subkeys and the keys below it. The
-- tree is a value: a write through the pointer to a subkey is `replace`.
pub mod Paths
use gowim.Base.{ℕ, Bool, true, false, List, [], ◌∷◌, Option, none, some, if◌then◌else◌}
use gowim.Bytes.{Bytes}
use gowim.Text.{Text, utf8_to_string, utf16le_to_string, string_to_utf16le, equal_fold, split_path}
use gowim.Rose.{
  Tree, node, Forest, nil, value, children, with_children, snoc, find, replace, remove,
}
use gowim.Wim.Resource.{has_flag}
use gowim.Regf.Values.{Value, find_value, set_value, delete_value}

-- The fields of `Key` but its subkeys; no class name and no security are `none`.
pub record KeyInfo : Type 0 where
  pub flags : ℕ
  pub last_written : ℕ
  pub name : Bytes
  pub class_name : Option Bytes
  pub security : Option Bytes
  pub values : List Value

abbrev pub Key : Type 0
Key = Tree KeyInfo

abbrev pub key_flag_hive_entry : ℕ
key_flag_hive_entry = 4

abbrev pub key_flag_comp_name : ℕ
key_flag_comp_name = 32

-- `NameUTF8`, whose string is that of the bytes, in UTF-8, where the name is not UTF-16.
unfoldable pub key_name : KeyInfo → Text
unfolding has_flag utf8_to_string
key_name k =
    if has_flag k.flags key_flag_comp_name then utf8_to_string k.name else utf16le_to_string k.name

unfoldable pub is_root : KeyInfo → Bool
unfolding has_flag
is_root k = has_flag k.flags key_flag_hive_entry

unfoldable pub is_key_named : (ℕ → ℕ) → Text → KeyInfo → Bool
unfolding key_name equal_fold
is_key_named fold name k = equal_fold fold (key_name k) name

unfoldable pub subkey : (ℕ → ℕ) → Text → Key → Option Key
unfolding find
subkey fold name k = find (is_key_named fold name) (children k)

-- The key after `DeleteSubkey`, and what it reports.
unfoldable pub delete_subkey : (ℕ → ℕ) → Text → Key → Key × Bool
unfolding subkey remove
delete_subkey fold name k = elim (subkey fold name k) [
  | none ↦ (k, false)
  | some c ↦ (with_children k (remove (is_key_named fold name) (children k)), true)
]

abbrev pub new_key : Text → Key
new_key name =
    node
      (record {
        flags = 0;
        last_written = 0;
        name = string_to_utf16le name;
        class_name = none;
        security = none;
        values = [];
      })
      nil

-- The key after `FindOrCreateSubkey`, and the subkey it returns.
unfoldable pub find_or_create_subkey : (ℕ → ℕ) → Text → Key → Key × Key
unfolding subkey snoc
find_or_create_subkey fold name k = elim (subkey fold name k) [
  | none ↦ (with_children k (snoc (children k) (new_key name)), new_key name)
  | some c ↦ (k, c)
]

-- What a write through the pointer to the subkey leaves of its key.
unfoldable pub write_subkey : (ℕ → ℕ) → Text → Key → Key → Key
unfolding replace
write_subkey fold name c k = with_children k (replace (is_key_named fold name) c (children k))

unfoldable pub open_from : (ℕ → ℕ) → List Text → Key → Option Key
open_from fold [] k = some k
open_from fold (n ∷ ns) k = elim (subkey fold n k) [ none ↦ none | some c ↦ open_from fold ns c ]

unfoldable pub open_path : (ℕ → ℕ) → Text → Key → Option Key
unfolding open_from split_path
open_path fold path k = open_from fold (split_path path) k

unfoldable pub find_or_create_from : (ℕ → ℕ) → List Text → Key → Key × Key
find_or_create_from fold [] k = (k, k)
find_or_create_from fold (n ∷ ns) k =
    let (k', c) = find_or_create_subkey fold n k in
    let (c', found) = find_or_create_from fold ns c in (write_subkey fold n c' k', found)

unfoldable pub find_or_create_path : (ℕ → ℕ) → Text → Key → Key × Key
unfolding find_or_create_from split_path
find_or_create_path fold path k = find_or_create_from fold (split_path path) k

-- `strings.Join` of the components but the last, split again, is those components.
unfoldable pub delete_from : (ℕ → ℕ) → List Text → Key → Key × Bool
delete_from fold [] k = (k, false)
delete_from fold (n ∷ []) k = delete_subkey fold n k
delete_from fold (n ∷ m ∷ ns) k = elim (subkey fold n k) [
  | none ↦ (k, false)
  | some c ↦ let (c', done) = delete_from fold (m ∷ ns) c in (write_subkey fold n c' k, done)
]

unfoldable pub delete_path : (ℕ → ℕ) → Text → Key → Key × Bool
unfolding delete_from split_path
delete_path fold path k = delete_from fold (split_path path) k
