-- ===== src/Tests/Registry.antt =====
-- The registry tree and the services in it, at concrete inputs.
use gowim.Base.{
  ℕ, ◌≡◌, ◌≢◌, ◌∙◌, refl, arith, List, [], ◌∷◌, none, some, ok, All, if◌then◌else◌, true, false,
}
use gowim.Bytes.{eq_bytes, byte, join2}
use gowim.Text.{
  Text, IsScalar, upper, equal_fold, fold_key, is_ascii, is_ascii-IsAscii, ascii-IsScalar,
  string_to_utf16le, encode_runes, encode_rune, units_to_bytes, utf16le_to_string, decode_units,
  bytes_to_units,
}
use gowim.Rose.{node, nil, cons, value, find}
use gowim.Wim.Resource.{has_flag}
use gowim.Regf.Values.{Value, new_value, value_name, is_named, find_value, set_value, delete_value}
use gowim.Regf.Values.Laws.{get, UniqueValues, get-set_value}
use gowim.Regf.Key.{Key, key_name, is_key_named, new_key, subkey, open_path, find_or_create_path}
use gowim.Regf.Key.Paths.{open_path-find_or_create_path}
use gowim.Regf.Encoding.{encode_multi_sz, decode_multi_sz}
use gowim.Regf.Encoding.MultiSz.{IsListable, decode_multi_sz-encode_multi_sz}
use gowim.Service.{
  write_service, write_service_values, set_or_remove_sz, set_or_remove_multi_sz, Service, install,
  modify, read,
}
use gowim.Service.ControlSet.{padded, decimal}
use gowim.Service.RoundTrip.{
  IsWritable, read-found, read_values-write, stored_values, read-install, read-modify,
}
use gowim.Service.Lifecycle.{read-install_other}

abbrev name_a : Text
name_a = b'a' ∷ []

abbrev name_b : Text
name_b = b'b' ∷ []

plain : (s : Text) → is_ascii s ≡ true → All IsScalar s
plain s h = ascii-IsScalar s (is_ascii-IsAscii s h)

abbrev values : List Value
values = new_value name_a 1 (1 ∷ []) ∷ new_value name_b 3 (2 ∷ []) ∷ []

values-Unique : UniqueValues upper values
unfolding get find_value is_named value_name equal_fold fold_key eq_bytes string_to_utf16le
    encode_runes encode_rune units_to_bytes byte utf16le_to_string decode_units bytes_to_units join2
    has_flag
values-Unique = (refl, (refl, tt))

get-set_value_example : get upper (b'B' ∷ []) (set_value upper name_b 4 (7 ∷ []) values) ≡ (
    if equal_fold upper name_b (b'B' ∷ []) then some (4, 7 ∷ []) else get upper (b'B' ∷ []) values)
get-set_value_example = get-set_value upper name_b (b'B' ∷ []) 4 (7 ∷ []) values (plain name_b refl)

abbrev path : Text
path = b'a' ∷ b'\\' ∷ b'b' ∷ []

open_path-find_or_create_path_example :
    open_path upper path (find_or_create_path upper path (new_key [])).0
    ≡ some (find_or_create_path upper path (new_key [])).1
open_path-find_or_create_path_example =
    open_path-find_or_create_path upper path (new_key []) (plain path refl)

listable : (c : ℕ) (s : Text) → All IsScalar (c ∷ s) → All (λ x. x ≢ 0) (c ∷ s) → IsListable (c ∷ s)
listable c s h k = record { not_empty = λ e. cc e; scalar = h; no_nul = k }

two-Listable : All IsListable (name_a ∷ path ∷ [])
two-Listable = (
  listable b'a' [] (plain name_a refl) (omega arith, tt),
  (
    listable b'a' (b'\\' ∷ b'b' ∷ []) (plain path refl)
        (omega arith, (omega arith, (omega arith, tt))),
    tt,
  ),
)

decode_multi_sz-encode_multi_sz_example :
    decode_multi_sz (encode_multi_sz (name_a ∷ path ∷ [])) ≡ name_a ∷ path ∷ []
decode_multi_sz-encode_multi_sz_example =
    decode_multi_sz-encode_multi_sz (name_a ∷ path ∷ []) two-Listable

-- A service with a group and two dependencies, and no description.
abbrev sample : Service
sample = record {
  name = name_a;
  type = 1;
  start = 2;
  error_control = 1;
  image_path = path;
  group = name_b;
  display_name = name_a;
  description = [];
  object_name = [];
  depend_on_group = [];
  depend_on_service = name_a ∷ path ∷ [];
}

sample-IsWritable : IsWritable sample
sample-IsWritable = record {
  name_given = λ e. cc e;
  name_scalar = plain name_a refl;
  path_given = λ e. cc e;
  type_fits = omega arith;
  start_fits = omega arith;
  error_control_fits = omega arith;
  image_path_scalar = plain path refl;
  group_scalar = plain name_b refl;
  display_name_scalar = plain name_a refl;
  description_scalar = tt;
  object_name_scalar = tt;
  depend_on_group_listable = tt;
  depend_on_service_listable = two-Listable;
}

-- A Services key with a key a, which has two values.
abbrev key_a : Key
key_a = node (record (value (new_key name_a)) { values = values }) nil

abbrev services : Key
services = node (value (new_key [])) (cons key_a nil)

names_differ : equal_fold upper name_a name_b ≡ false
unfolding equal_fold fold_key eq_bytes
names_differ = refl

services-subkey : subkey upper name_a services ≡ some key_a
unfolding subkey find is_key_named key_name equal_fold fold_key eq_bytes string_to_utf16le
    encode_runes encode_rune units_to_bytes byte utf16le_to_string decode_units bytes_to_units join2
    has_flag
services-subkey = refl

stored : stored_values upper name_a services ≡ values
stored = rw (stored_values, services-subkey) refl

read-install_example :
    (read upper name_a (install upper sample (some services)).0 ≡ ok sample)
    × ((install upper sample (some services)).1 ≡ none)
read-install_example =
    read-install upper sample services (λ c h. refl) (rw stored values-Unique) sample-IsWritable

read-modify_example :
    (read upper name_a (modify upper sample (some services)).0 ≡ ok sample)
    × ((modify upper sample (some services)).1 ≡ none)
read-modify_example =
    read-modify upper sample services key_a (λ c h. refl) services-subkey values-Unique
      sample-IsWritable

read-install_other_example :
    read upper name_b (install upper sample (some services)).0 ≡ read upper name_b (some services)
read-install_other_example =
    read-install_other upper sample name_b services (plain name_a refl) names_differ

-- A Services key in which the sample has been written.
abbrev running : Key
running = node (value (new_key [])) (cons (write_service upper sample (new_key name_a)) nil)

running-subkey : subkey upper name_a running ≡ some (write_service upper sample (new_key name_a))
unfolding subkey find is_key_named key_name equal_fold fold_key eq_bytes string_to_utf16le
    encode_runes encode_rune units_to_bytes byte utf16le_to_string decode_units bytes_to_units join2
    has_flag
running-subkey = refl

running-Unique : UniqueValues upper (write_service_values upper sample [])
unfolding write_service_values set_or_remove_sz set_or_remove_multi_sz set_value delete_value get
    find_value is_named value_name equal_fold fold_key eq_bytes string_to_utf16le encode_runes
    encode_rune units_to_bytes byte utf16le_to_string decode_units bytes_to_units join2 has_flag
running-Unique = (refl, (refl, (refl, (refl, (refl, (refl, (refl, tt)))))))

running_reads : read upper name_a (some running) ≡ ok sample
running_reads =
    read-found upper name_a running (write_service upper sample (new_key name_a)) (λ e. cc e)
      running-subkey
    ∙ read_values-write upper sample [] (λ c h. refl) tt sample-IsWritable

-- Runs of `%03d`.
padded_one : padded 1 ≡ b'0' ∷ b'0' ∷ b'1' ∷ []
unfolding padded decimal
padded_one = refl

padded_largest :
    padded 4294967295 ≡ b'4' ∷ b'2' ∷ b'9' ∷ b'4' ∷ b'9' ∷ b'6' ∷ b'7' ∷ b'2' ∷ b'9' ∷ b'5' ∷ []
unfolding padded decimal
padded_largest = refl
