-- ===== src/Service.antt =====
-- The service directory: registrations of Windows services as subkeys of a Services key. A
-- `*regf.Key` is an optional key, whose tree a function that writes returns; the errors that wrap
-- another error are the error they wrap.
pub mod Fields
pub mod RoundTrip
pub mod Lifecycle
pub mod ControlSet
use gowim.Base.{
  ℕ, Bool, true, false, List, [], ◌∷◌, Option, none, some, if◌then◌else◌, ◌==◌, Result, ok, err,
  ◌>>=◌,
}
use gowim.Bytes.{Bytes}
use gowim.Text.{Text}
use gowim.Rose.{Tree, node, Forest, nil, cons, value, children, with_children}
use gowim.Regf.Values.{
  Value, reg_sz, reg_expand_sz, reg_dword, reg_multi_sz, find_value, set_value, delete_value, dword,
  sz,
}
use gowim.Regf.Encoding.{encode_dword, encode_sz, encode_multi_sz, decode_multi_sz}
use gowim.Regf.Key.{
  Key, KeyInfo, key_name, subkey, delete_subkey, find_or_create_subkey, write_subkey,
}

pub record Service : Type 0 where
  pub name : Text
  pub type : ℕ
  pub start : ℕ
  pub error_control : ℕ
  pub image_path : Text
  pub group : Text
  pub display_name : Text
  pub description : Text
  pub object_name : Text
  pub depend_on_group : List Text
  pub depend_on_service : List Text

-- `not_found` is `ErrNotFound`.
pub data ServiceError : Type 0 where
  nil_key no_name no_image_path not_found no_value wrong_length start_disabled : ServiceError

abbrev pub start_disabled_type : ℕ
start_disabled_type = 4

-- The names of the values.
abbrev pub type_value : Text
type_value = b'T' ∷ b'y' ∷ b'p' ∷ b'e' ∷ []

abbrev pub start_value : Text
start_value = b'S' ∷ b't' ∷ b'a' ∷ b'r' ∷ b't' ∷ []

abbrev pub error_control_value : Text
error_control_value =
    b'E' ∷ b'r' ∷ b'r' ∷ b'o' ∷ b'r' ∷ b'C' ∷ b'o' ∷ b'n' ∷ b't' ∷ b'r' ∷ b'o' ∷ b'l' ∷ []

abbrev pub image_path_value : Text
image_path_value = b'I' ∷ b'm' ∷ b'a' ∷ b'g' ∷ b'e' ∷ b'P' ∷ b'a' ∷ b't' ∷ b'h' ∷ []

abbrev pub group_value : Text
group_value = b'G' ∷ b'r' ∷ b'o' ∷ b'u' ∷ b'p' ∷ []

abbrev pub display_name_value : Text
display_name_value = b'D' ∷ b'i' ∷ b's' ∷ b'p' ∷ b'l' ∷ b'a' ∷ b'y' ∷ b'N' ∷ b'a' ∷ b'm' ∷ b'e' ∷ []

abbrev pub description_value : Text
description_value = b'D' ∷ b'e' ∷ b's' ∷ b'c' ∷ b'r' ∷ b'i' ∷ b'p' ∷ b't' ∷ b'i' ∷ b'o' ∷ b'n' ∷ []

abbrev pub object_name_value : Text
object_name_value = b'O' ∷ b'b' ∷ b'j' ∷ b'e' ∷ b'c' ∷ b't' ∷ b'N' ∷ b'a' ∷ b'm' ∷ b'e' ∷ []

abbrev pub depend_on_group_value : Text
depend_on_group_value =
    b'D' ∷ b'e' ∷ b'p' ∷ b'e' ∷ b'n' ∷ b'd' ∷ b'O' ∷ b'n' ∷ b'G' ∷ b'r' ∷ b'o' ∷ b'u' ∷ b'p' ∷ []

abbrev pub depend_on_service_value : Text
depend_on_service_value =
    b'D' ∷ b'e' ∷ b'p' ∷ b'e' ∷ b'n' ∷ b'd' ∷ b'O' ∷ b'n' ∷ b'S' ∷ b'e' ∷ b'r' ∷ b'v' ∷ b'i' ∷ b'c'
    ∷ b'e' ∷ []

-- `validateService`; `none` is no error.
unfoldable pub validate_service : Service → Option ServiceError
validate_service svc = elim svc.name [
  | [] ↦ some no_name
  | c ∷ name ↦ elim svc.image_path [ [] ↦ some no_image_path | d ∷ path ↦ none ]
]

-- `setOrRemoveSZ`.
unfoldable pub set_or_remove_sz : (ℕ → ℕ) → Text → Text → List Value → List Value
set_or_remove_sz fold name [] vs = (delete_value fold name vs).0
set_or_remove_sz fold name (c ∷ s) vs = set_value fold name reg_sz (encode_sz (c ∷ s)) vs

-- The branches on `len(svc.DependOnGroup)` and `len(svc.DependOnService)`.
unfoldable pub set_or_remove_multi_sz : (ℕ → ℕ) → Text → List Text → List Value → List Value
set_or_remove_multi_sz fold name [] vs = (delete_value fold name vs).0
set_or_remove_multi_sz fold name (s ∷ ss) vs =
    set_value fold name reg_multi_sz (encode_multi_sz (s ∷ ss)) vs

-- `writeServiceValues`, on the values of the key.
unfoldable pub write_service_values : (ℕ → ℕ) → Service → List Value → List Value
write_service_values fold svc vs =
    let vs1 = set_value fold type_value reg_dword (encode_dword svc.type) vs in
    let vs2 = set_value fold start_value reg_dword (encode_dword svc.start) vs1 in
    let vs3 = set_value fold error_control_value reg_dword (encode_dword svc.error_control) vs2 in
    let vs4 = set_value fold image_path_value reg_expand_sz (encode_sz svc.image_path) vs3 in
    let vs5 = set_or_remove_sz fold group_value svc.group vs4 in
    let vs6 = set_or_remove_sz fold display_name_value svc.display_name vs5 in
    let vs7 = set_or_remove_sz fold description_value svc.description vs6 in
    let vs8 = set_or_remove_sz fold object_name_value svc.object_name vs7 in
    let vs9 = set_or_remove_multi_sz fold depend_on_group_value svc.depend_on_group vs8 in
    set_or_remove_multi_sz fold depend_on_service_value svc.depend_on_service vs9

-- The key with the values written.
abbrev pub write_service : (ℕ → ℕ) → Service → Key → Key
write_service fold svc k =
    node (record (value k) { values = write_service_values fold svc (value k).values }) (children k)

-- The Services key after `Install`, and its error.
unfoldable pub install : (ℕ → ℕ) → Service → Option Key → Option Key × Option ServiceError
install fold svc none = (none, some nil_key)
install fold svc (some services) = elim (validate_service svc) [
  | some e ↦ (some services, some e)
  | none ↦
      let (services', key) = find_or_create_subkey fold svc.name services in
      (some (write_subkey fold svc.name (write_service fold svc key) services'), none)
]

unfoldable pub modify : (ℕ → ℕ) → Service → Option Key → Option Key × Option ServiceError
modify fold svc none = (none, some nil_key)
modify fold svc (some services) = elim (validate_service svc) [
  | some e ↦ (some services, some e)
  | none ↦ elim (subkey fold svc.name services) [
    | none ↦ (some services, some not_found)
    | some key ↦ (some (write_subkey fold svc.name (write_service fold svc key) services), none)
  ]
]

unfoldable pub delete : (ℕ → ℕ) → Text → Option Key → Option Key × Option ServiceError
delete fold name none = (none, some nil_key)
delete fold [] (some services) = (some services, some no_name)
delete fold (c ∷ name) (some services) =
    let (services', done) = delete_subkey fold (c ∷ name) services in
    (some services', if done then none else some not_found)

-- `readDWORD`.
unfoldable pub read_dword : (ℕ → ℕ) → Text → List Value → Result ServiceError ℕ
read_dword fold name vs = elim (find_value fold name vs) [
  | none ↦ err no_value
  | some v ↦ elim (dword v) [ none ↦ err wrong_length | some n ↦ ok n ]
]

-- `readSZ`.
unfoldable pub read_sz : (ℕ → ℕ) → Text → List Value → Text
read_sz fold name vs = elim (find_value fold name vs) [ none ↦ [] | some v ↦ sz v ]

-- `readMultiSZ`.
unfoldable pub read_multi_sz : (ℕ → ℕ) → Text → List Value → List Text
read_multi_sz fold name vs = elim (find_value fold name vs) [
  | none ↦ []
  | some v ↦ decode_multi_sz v.data_bytes
]

-- The `ImagePath` of a key, which has to be there.
unfoldable pub read_image_path : (ℕ → ℕ) → List Value → Result ServiceError Text
read_image_path fold vs = elim (find_value fold image_path_value vs) [
  | none ↦ err no_value
  | some v ↦ ok (sz v)
]

-- The service in a key's values.
unfoldable pub read_values : (ℕ → ℕ) → Text → List Value → Result ServiceError Service
read_values fold name vs = do
  type ← read_dword fold type_value vs
  start ← read_dword fold start_value vs
  error_control ← read_dword fold error_control_value vs
  image_path ← read_image_path fold vs
  ok (record {
    name = name;
    type = type;
    start = start;
    error_control = error_control;
    image_path = image_path;
    group = read_sz fold group_value vs;
    display_name = read_sz fold display_name_value vs;
    description = read_sz fold description_value vs;
    object_name = read_sz fold object_name_value vs;
    depend_on_group = read_multi_sz fold depend_on_group_value vs;
    depend_on_service = read_multi_sz fold depend_on_service_value vs;
  })

unfoldable pub read : (ℕ → ℕ) → Text → Option Key → Result ServiceError Service
read fold name none = err nil_key
read fold [] (some services) = err no_name
read fold (c ∷ name) (some services) = elim (subkey fold (c ∷ name) services) [
  | none ↦ err not_found
  | some key ↦ read_values fold (c ∷ name) (value key).values
]

unfoldable pub set_start_type : (ℕ → ℕ) → Text → ℕ → Option Key → Option Key × Option ServiceError
set_start_type fold name start services = elim (read fold name services) [
  | err e ↦ (services, some e)
  | ok svc ↦ modify fold (record svc { start = start }) services
]

unfoldable pub disable : (ℕ → ℕ) → Text → Option Key → Option Key × Option ServiceError
disable fold name services = set_start_type fold name start_disabled_type services

unfoldable pub enable : (ℕ → ℕ) → Text → ℕ → Option Key → Option Key × Option ServiceError
enable fold name start services =
    if start == start_disabled_type
    then (services, some start_disabled)
    else set_start_type fold name start services

unfoldable pub names_of : Forest KeyInfo → List Text
names_of nil = []
names_of (cons c cs) = key_name (value c) ∷ names_of cs

unfoldable pub list : Option Key → Result ServiceError (List Text)
list none = err nil_key
list (some services) = ok (names_of (children services))
