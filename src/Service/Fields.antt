-- ===== src/Service/Fields.antt =====
-- What `writeServiceValues` leaves in a key, name by name, and what the readers of `Read` make of it.
use gowim.Base.{
  ℕ, ◌<◌, ◌^◌, ◌≡◌, refl, ap, ◌∙◌, List, [], ◌∷◌, Option, none, some, if◌then◌else◌, ok, All,
}
use gowim.Bytes.{Bytes, join4-byte}
use gowim.Text.{
  Text, IsScalar, IsAscii, is_ascii-IsAscii, upper, equal_fold, equal_fold-ascii, ascii-IsScalar,
  utf16le_to_string-string_to_utf16le,
}
use gowim.Regf.Values.{
  Value, reg_sz, reg_expand_sz, reg_dword, reg_multi_sz, set_value, delete_value, dword, sz,
}
use gowim.Regf.Values.Laws.{
  get, find_value-get, find_value-gone, UniqueValues, get-set_value, get-delete_value,
  set_value-UniqueValues, delete_value-UniqueValues,
}
use gowim.Regf.Encoding.{encode_dword, encode_sz, encode_multi_sz}
use gowim.Regf.Encoding.MultiSz.{IsListable, decode_multi_sz-encode_multi_sz}
use gowim.Service.{
  Service, set_or_remove_sz, set_or_remove_multi_sz, write_service_values, read_dword, read_sz,
  read_multi_sz, read_image_path, type_value, start_value, error_control_value, image_path_value,
  group_value, display_name_value, description_value, object_name_value, depend_on_group_value,
  depend_on_service_value,
}

-- A name, and the type and data written under it, or that the value is removed.
abbrev pub Write : Type 0
Write = Text × Option (ℕ × Bytes)

abbrev put : (ℕ → ℕ) → Write → List Value → List Value
put fold (n, none) vs = (delete_value fold n vs).0
put fold (n, some (type, bytes)) vs = set_value fold n type bytes vs

-- The writes, the last one first.
abbrev puts : (ℕ → ℕ) → List Write → List Value → List Value
puts fold [] vs = vs
puts fold (w ∷ ws) vs = put fold w (puts fold ws vs)

abbrev pub written : (ℕ → ℕ) → Text → List Write → Option (ℕ × Bytes) → Option (ℕ × Bytes)
written fold q [] o = o
written fold q (w ∷ ws) o = if equal_fold fold w.0 q then w.1 else written fold q ws o

abbrev Named : List Write → Type 0
Named ws = All (λ (w : Write). IsAscii w.0) ws

get-put :
    (fold : ℕ → ℕ) (q : Text) (w : Write) (vs : List Value)
    → IsAscii w.0
    → UniqueValues fold vs
    → get fold q (put fold w vs) ≡ (if equal_fold fold w.0 q then w.1 else get fold q vs)
get-put fold q (n, none) vs h u = get-delete_value fold n q vs u
get-put fold q (n, some (type, bytes)) vs h u =
    get-set_value fold n q type bytes vs (ascii-IsScalar n h)

put-UniqueValues :
    (fold : ℕ → ℕ) (w : Write) (vs : List Value)
    → IsAscii w.0
    → UniqueValues fold vs
    → UniqueValues fold (put fold w vs)
put-UniqueValues fold (n, none) vs h u = delete_value-UniqueValues fold n vs u
put-UniqueValues fold (n, some (type, bytes)) vs h u =
    set_value-UniqueValues fold n type bytes vs (ascii-IsScalar n h) u

puts-UniqueValues :
    (fold : ℕ → ℕ) (ws : List Write) (vs : List Value)
    → Named ws
    → UniqueValues fold vs
    → UniqueValues fold (puts fold ws vs)
puts-UniqueValues fold [] vs h u = u
puts-UniqueValues fold (w ∷ ws) vs h u =
    put-UniqueValues fold w (puts fold ws vs) h.0 (puts-UniqueValues fold ws vs h.1 u)

get-puts :
    (fold : ℕ → ℕ) (q : Text) (ws : List Write) (vs : List Value)
    → Named ws
    → UniqueValues fold vs
    → get fold q (puts fold ws vs) ≡ written fold q ws (get fold q vs)
get-puts fold q [] vs h u = refl
get-puts fold q (w ∷ ws) vs h u = rw (
  get-put fold q w (puts fold ws vs) h.0 (puts-UniqueValues fold ws vs h.1 u),
  get-puts fold q ws vs h.1 u,
)

written-ascii :
    (fold : ℕ → ℕ) (q : Text) (ws : List Write) (o : Option (ℕ × Bytes))
    → ((c : ℕ) → c < 128 → fold c ≡ upper c)
    → IsAscii q
    → Named ws
    → written fold q ws o ≡ written upper q ws o
written-ascii fold q [] o f k h = refl
written-ascii fold q (w ∷ ws) o f k h =
    rw (equal_fold-ascii fold w.0 q f h.0 k, written-ascii fold q ws o f k h.1)

abbrev pub sz_data : Text → Option (ℕ × Bytes)
sz_data [] = none
sz_data (c ∷ s) = some (reg_sz, encode_sz (c ∷ s))

abbrev pub multi_sz_data : List Text → Option (ℕ × Bytes)
multi_sz_data [] = none
multi_sz_data (s ∷ ss) = some (reg_multi_sz, encode_multi_sz (s ∷ ss))

abbrev pub service_writes : Service → List Write
service_writes svc =
    (depend_on_service_value, multi_sz_data svc.depend_on_service)
    ∷ (depend_on_group_value, multi_sz_data svc.depend_on_group)
    ∷ (object_name_value, sz_data svc.object_name)
    ∷ (description_value, sz_data svc.description)
    ∷ (display_name_value, sz_data svc.display_name)
    ∷ (group_value, sz_data svc.group)
    ∷ (image_path_value, some (reg_expand_sz, encode_sz svc.image_path))
    ∷ (error_control_value, some (reg_dword, encode_dword svc.error_control))
    ∷ (start_value, some (reg_dword, encode_dword svc.start))
    ∷ (type_value, some (reg_dword, encode_dword svc.type))
    ∷ []

set_or_remove_sz-put :
    (fold : ℕ → ℕ) (n s : Text) (vs : List Value)
    → set_or_remove_sz fold n s vs ≡ put fold (n, sz_data s) vs
unfolding set_or_remove_sz
set_or_remove_sz-put fold n [] vs = refl
set_or_remove_sz-put fold n (c ∷ s) vs = refl

set_or_remove_multi_sz-put :
    (fold : ℕ → ℕ) (n : Text) (ss : List Text) (vs : List Value)
    → set_or_remove_multi_sz fold n ss vs ≡ put fold (n, multi_sz_data ss) vs
unfolding set_or_remove_multi_sz
set_or_remove_multi_sz-put fold n [] vs = refl
set_or_remove_multi_sz-put fold n (s ∷ ss) vs = refl

write_service_values-puts :
    (fold : ℕ → ℕ) (svc : Service) (vs : List Value)
    → write_service_values fold svc vs ≡ puts fold (service_writes svc) vs
unfolding write_service_values
write_service_values-puts fold svc vs = simp (set_or_remove_sz-put, set_or_remove_multi_sz-put)

service_writes-Named : (svc : Service) → Named (service_writes svc)
service_writes-Named svc = (
  is_ascii-IsAscii depend_on_service_value refl,
  (
    is_ascii-IsAscii depend_on_group_value refl,
    (
      is_ascii-IsAscii object_name_value refl,
      (
        is_ascii-IsAscii description_value refl,
        (
          is_ascii-IsAscii display_name_value refl,
          (
            is_ascii-IsAscii group_value refl,
            (
              is_ascii-IsAscii image_path_value refl,
              (
                is_ascii-IsAscii error_control_value refl,
                (is_ascii-IsAscii start_value refl, (is_ascii-IsAscii type_value refl, tt)),
              ),
            ),
          ),
        ),
      ),
    ),
  ),
)

module _ (fold : ℕ → ℕ) (vs : List Value) (q : Text) where
  pub read_dword-get :
      (n type : ℕ)
      → n < 2 ^ 32
      → get fold q vs ≡ some (type, encode_dword n)
      → read_dword fold q vs ≡ ok n
  unfolding read_dword dword
  read_dword-get n type h e =
      let (v, found, bytes) = find_value-get fold q vs (type, encode_dword n) e in
      rw (read_dword, found) (rw (dword, bytes) (rw (join4-byte n h) refl))

  pub read_sz-get : (s : Text) → All IsScalar s → get fold q vs ≡ sz_data s → read_sz fold q vs ≡ s
  unfolding read_sz sz
  read_sz-get [] h e = rw (read_sz, find_value-gone fold q vs e) refl
  read_sz-get (c ∷ s) h e =
      let (v, found, bytes) = find_value-get fold q vs (reg_sz, encode_sz (c ∷ s)) e in
      rw (read_sz, found, bytes) (utf16le_to_string-string_to_utf16le (c ∷ s) h)

  pub read_multi_sz-get :
      (ss : List Text)
      → All IsListable ss
      → get fold q vs ≡ multi_sz_data ss
      → read_multi_sz fold q vs ≡ ss
  unfolding read_multi_sz
  read_multi_sz-get [] h e = rw (read_multi_sz, find_value-gone fold q vs e) refl
  read_multi_sz-get (s ∷ ss) h e =
      let (v, found, bytes) = find_value-get fold q vs (reg_multi_sz, encode_multi_sz (s ∷ ss)) e in
      rw (read_multi_sz, found, bytes) (decode_multi_sz-encode_multi_sz (s ∷ ss) h)

pub read_image_path-get :
    (fold : ℕ → ℕ) (vs : List Value) (s : Text) (type : ℕ)
    → All IsScalar s
    → get fold image_path_value vs ≡ some (type, encode_sz s)
    → read_image_path fold vs ≡ ok s
unfolding read_image_path sz
read_image_path-get fold vs s type h e =
    let (v, found, bytes) = find_value-get fold image_path_value vs (type, encode_sz s) e in
    rw (read_image_path, found, bytes) (ap ok (utf16le_to_string-string_to_utf16le s h))

-- What stands under an ASCII name after the writes.
pub get-write_service_values :
    (fold : ℕ → ℕ) (svc : Service) (vs : List Value) (q : Text)
    → ((c : ℕ) → c < 128 → fold c ≡ upper c)
    → UniqueValues fold vs
    → IsAscii q
    → get fold q (write_service_values fold svc vs)
      ≡ written upper q (service_writes svc) (get fold q vs)
get-write_service_values fold svc vs q f u a =
    ap (get fold q) (write_service_values-puts fold svc vs)
    ∙ get-puts fold q (service_writes svc) vs (service_writes-Named svc) u
    ∙ written-ascii fold q (service_writes svc) (get fold q vs) f a (service_writes-Named svc)
