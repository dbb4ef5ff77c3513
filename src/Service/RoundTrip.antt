-- ===== src/Service/RoundTrip.antt =====
-- Services written, and read back with `Read`.
use gowim.Base.{
  ℕ, ◌<◌, ◌^◌, ◌≡◌, ◌≢◌, refl, subst, arith, ◌∙◌, sym, List, [], ◌∷◌, none, some, ok, All,
}
use gowim.Text.{Text, IsScalar, IsAscii, is_ascii-IsAscii, upper, equal_fold}
use gowim.Rose.{value}
use gowim.Regf.Values.{Value, reg_expand_sz, reg_dword}
use gowim.Regf.Values.Laws.{UniqueValues}
use gowim.Regf.Encoding.MultiSz.{IsListable}
use gowim.Regf.Key.{Key, key_name, is_key_named, subkey, find_or_create_subkey, write_subkey}
use gowim.Regf.Key.Paths.{subkey-find_or_create, subkey-write_subkey}
use gowim.Service.{
  Service, install, modify, read, read_values, validate_service, write_service,
  write_service_values, type_value, start_value, error_control_value, image_path_value, group_value,
  display_name_value, description_value, object_name_value, depend_on_group_value,
  depend_on_service_value,
}
use gowim.Service.Fields.{
  get-write_service_values, read_dword-get, read_sz-get, read_multi_sz-get, read_image_path-get,
}

-- A service that a registry key can hold: a name and a path, strings of Unicode scalar values,
-- numbers of 32 bits, and dependencies that REG_MULTI_SZ data can list.
pub record IsWritable (svc : Service) : Type 0 where
  pub name_given : svc.name ≢ []
  pub name_scalar : All IsScalar svc.name
  pub path_given : svc.image_path ≢ []
  pub type_fits : svc.type < 2 ^ 32
  pub start_fits : svc.start < 2 ^ 32
  pub error_control_fits : svc.error_control < 2 ^ 32
  pub image_path_scalar : All IsScalar svc.image_path
  pub group_scalar : All IsScalar svc.group
  pub display_name_scalar : All IsScalar svc.display_name
  pub description_scalar : All IsScalar svc.description
  pub object_name_scalar : All IsScalar svc.object_name
  pub depend_on_group_listable : All IsListable svc.depend_on_group
  pub depend_on_service_listable : All IsListable svc.depend_on_service

pub read_values-write :
    (fold : ℕ → ℕ) (svc : Service) (vs : List Value)
    → ((c : ℕ) → c < 128 → fold c ≡ upper c)
    → UniqueValues fold vs
    → IsWritable svc
    → read_values fold svc.name (write_service_values fold svc vs) ≡ ok svc
unfolding equal_fold gowim.Bytes.eq_bytes read_values
read_values-write fold svc vs f u h =
    let ws = write_service_values fold svc vs in
    let at = λ (q : Text) (a : IsAscii q). get-write_service_values fold svc vs q f u a in
    let l_type =
      read_dword-get fold ws type_value svc.type reg_dword h.type_fits
        (at type_value (is_ascii-IsAscii type_value refl)) in
    let l_start =
      read_dword-get fold ws start_value svc.start reg_dword h.start_fits
        (at start_value (is_ascii-IsAscii start_value refl)) in
    let l_error_control =
      read_dword-get fold ws error_control_value svc.error_control reg_dword h.error_control_fits
        (at error_control_value (is_ascii-IsAscii error_control_value refl)) in
    let l_image_path =
      read_image_path-get fold ws svc.image_path reg_expand_sz h.image_path_scalar
        (at image_path_value (is_ascii-IsAscii image_path_value refl)) in
    let l_group =
      read_sz-get fold ws group_value svc.group h.group_scalar
        (at group_value (is_ascii-IsAscii group_value refl)) in
    let l_display_name =
      read_sz-get fold ws display_name_value svc.display_name h.display_name_scalar
        (at display_name_value (is_ascii-IsAscii display_name_value refl)) in
    let l_description =
      read_sz-get fold ws description_value svc.description h.description_scalar
        (at description_value (is_ascii-IsAscii description_value refl)) in
    let l_object_name =
      read_sz-get fold ws object_name_value svc.object_name h.object_name_scalar
        (at object_name_value (is_ascii-IsAscii object_name_value refl)) in
    let l_depend_on_group =
      read_multi_sz-get fold ws depend_on_group_value svc.depend_on_group h.depend_on_group_listable
        (at depend_on_group_value (is_ascii-IsAscii depend_on_group_value refl)) in
    let l_depend_on_service =
      read_multi_sz-get fold ws depend_on_service_value svc.depend_on_service
        h.depend_on_service_listable
        (at depend_on_service_value (is_ascii-IsAscii depend_on_service_value refl)) in
    rw
      (
        read_values, l_type, l_start, l_error_control, l_image_path, l_group, l_display_name,
        l_description, l_object_name, l_depend_on_group, l_depend_on_service,
      )
      refl

-- The values that a service's key has before it is written; none when there is no such key.
abbrev pub stored_values : (ℕ → ℕ) → Text → Key → List Value
stored_values fold name services = elim (subkey fold name services) [
  | none ↦ []
  | some key ↦ (value key).values
]

find_or_create-values :
    (fold : ℕ → ℕ) (n : Text) (k : Key)
    → (value (find_or_create_subkey fold n k).1).values ≡ stored_values fold n k
unfolding find_or_create_subkey
find_or_create-values fold n k = ground arith

pub write_service-name :
    (fold : ℕ → ℕ) (n : Text) (svc : Service) (k : Key)
    → is_key_named fold n (value (write_service fold svc k)) ≡ is_key_named fold n (value k)
unfolding is_key_named key_name
write_service-name fold n svc k = refl

pub read-found :
    (fold : ℕ → ℕ) (name : Text) (services key : Key)
    → name ≢ []
    → subkey fold name services ≡ some key
    → read fold name (some services) ≡ read_values fold name (value key).values
unfolding read
read-found fold [] services key h e = absurd (h refl)
read-found fold (c ∷ name) services key h e = rw (read, e) refl

validate_service_given :
    (name path : Text) (svc : Service)
    → svc.name ≡ name
    → svc.image_path ≡ path
    → name ≢ []
    → path ≢ []
    → validate_service svc ≡ none
unfolding validate_service
validate_service_given [] path svc e f h k = absurd (h refl)
validate_service_given (c ∷ name) [] svc e f h k = absurd (k refl)
validate_service_given (c ∷ name) (d ∷ path) svc e f h k = rw (validate_service, e, f) refl

validate_service-IsWritable : (svc : Service) → IsWritable svc → validate_service svc ≡ none
validate_service-IsWritable svc h =
    validate_service_given svc.name svc.image_path svc refl refl h.name_given h.path_given

-- `Read` gives back the service that `Install` wrote, and `Install` reports no error: for a service
-- that a key can hold, whether or not a key of its name is there, if the values of the one that is
-- there have different names. Case folding is ASCII's on ASCII.
pub read-install :
    (fold : ℕ → ℕ) (svc : Service) (services : Key)
    → ((c : ℕ) → c < 128 → fold c ≡ upper c)
    → UniqueValues fold (stored_values fold svc.name services)
    → IsWritable svc
    → (read fold svc.name (install fold svc (some services)).0 ≡ ok svc)
      × ((install fold svc (some services)).1 ≡ none)
unfolding install
read-install fold svc services f u h =
    let made = find_or_create_subkey fold svc.name services in
    let stands =
      subkey-write_subkey fold svc.name made.0 made.1 (write_service fold svc made.1)
        (subkey-find_or_create fold svc.name services h.name_scalar)
        (write_service-name fold svc.name svc made.1) in
    let unique =
      subst (λ (vs : List Value). UniqueValues fold vs)
        (sym (find_or_create-values fold svc.name services)) u in
    rw (install, validate_service-IsWritable svc h)
      (
        read-found fold svc.name (write_subkey fold svc.name (write_service fold svc made.1) made.0)
              (write_service fold svc made.1) h.name_given stands
            ∙ read_values-write fold svc (value made.1).values f unique h,
        refl,
      )

-- `Read` gives back the service that `Modify` wrote, and `Modify` reports no error: for a service
-- that a key can hold, whose key is there with values of different names. Case folding is ASCII's
-- on ASCII.
pub read-modify :
    (fold : ℕ → ℕ) (svc : Service) (services key : Key)
    → ((c : ℕ) → c < 128 → fold c ≡ upper c)
    → subkey fold svc.name services ≡ some key
    → UniqueValues fold (value key).values
    → IsWritable svc
    → (read fold svc.name (modify fold svc (some services)).0 ≡ ok svc)
      × ((modify fold svc (some services)).1 ≡ none)
unfolding modify
read-modify fold svc services key f here u h =
    let stands =
      subkey-write_subkey fold svc.name services key (write_service fold svc key) here
        (write_service-name fold svc.name svc key) in
    rw (modify, validate_service-IsWritable svc h, here)
      (
        read-found fold svc.name (write_subkey fold svc.name (write_service fold svc key) services)
              (write_service fold svc key) h.name_given stands
            ∙ read_values-write fold svc (value key).values f u h,
        refl,
      )
