-- ===== src/Service/Lifecycle.antt =====
-- Services reconfigured, removed, and left alone by what is done to the others.
use gowim.Base.{
  ℕ, ◌<◌, ◌^◌, ◌≡◌, refl, arith, ◌∙◌, false, List, [], ◌∷◌, none, some, ok, All, Option-cases, inl,
  inr,
}
use gowim.Text.{Text, IsScalar, upper, equal_fold}
use gowim.Rose.{value}
use gowim.Regf.Values.{Value}
use gowim.Regf.Values.Laws.{UniqueValues}
use gowim.Regf.Key.{Key, subkey, find_or_create_subkey, write_subkey, delete_subkey}
use gowim.Regf.Key.Paths.{
  subkey-find_or_create, subkey-fits, find_or_create_subkey-other, write_subkey-other,
  delete_subkey-other,
}
use gowim.Service.{
  Service, install, delete, read, set_start_type, read_values, validate_service, write_service,
}
use gowim.Service.RoundTrip.{IsWritable, read-modify, write_service-name}

read_values-name :
    (fold : ℕ → ℕ) (name : Text) (vs : List Value) (svc : Service)
    → read_values fold name vs ≡ ok svc
    → svc.name ≡ name
unfolding read_values
read_values-name fold name vs svc h = ground arith

read-name :
    (fold : ℕ → ℕ) (name : Text) (services : Key) (svc : Service)
    → read fold name (some services) ≡ ok svc
    → svc.name ≡ name
unfolding read
read-name fold [] services svc h = cc
read-name fold (c ∷ name) services svc h = elim (Option-cases (subkey fold (c ∷ name) services)) [
  | inl gone ↦ ground arith
  | inr (key, here) ↦ ground (arith, read_values-name fold (c ∷ name) (value key).values svc)
]

read-same :
    (fold : ℕ → ℕ) (q : Text) (a b : Key)
    → subkey fold q a ≡ subkey fold q b
    → read fold q (some a) ≡ read fold q (some b)
unfolding read
read-same fold [] a b h = refl
read-same fold (c ∷ q) a b h = rw (read, h) refl

restarted :
    (svc : Service) (start : ℕ)
    → IsWritable svc
    → start < 2 ^ 32
    → IsWritable (record svc { start = start })
restarted svc start h fits = record {
  start_fits = fits;
  name_given = h.name_given;
  name_scalar = h.name_scalar;
  path_given = h.path_given;
  type_fits = h.type_fits;
  error_control_fits = h.error_control_fits;
  image_path_scalar = h.image_path_scalar;
  group_scalar = h.group_scalar;
  display_name_scalar = h.display_name_scalar;
  description_scalar = h.description_scalar;
  object_name_scalar = h.object_name_scalar;
  depend_on_group_listable = h.depend_on_group_listable;
  depend_on_service_listable = h.depend_on_service_listable;
}

-- `SetStartType` changes the start type that `Read` gives and nothing else of the service, and
-- reports no error: where `Read` gives a service that a key can hold, and the values of its key
-- have different names. Case folding is ASCII's on ASCII.
pub read-set_start_type :
    (fold : ℕ → ℕ) (svc : Service) (start : ℕ) (services key : Key)
    → ((c : ℕ) → c < 128 → fold c ≡ upper c)
    → subkey fold svc.name services ≡ some key
    → UniqueValues fold (value key).values
    → read fold svc.name (some services) ≡ ok svc
    → IsWritable svc
    → start < 2 ^ 32
    → (read fold svc.name (set_start_type fold svc.name start (some services)).0
        ≡ ok (record svc { start = start }))
      × ((set_start_type fold svc.name start (some services)).1 ≡ none)
unfolding set_start_type
read-set_start_type fold svc start services key f here u given h fits =
    rw (set_start_type, given)
      (read-modify fold (record svc { start = start }) services key f here u
        (restarted svc start h fits))

-- `Install` of a service named in Unicode scalar values leaves what `Read` gives for a name that does
-- not fold like its own as it was, when it fails too.
pub read-install_other :
    (fold : ℕ → ℕ) (svc : Service) (q : Text) (services : Key)
    → All IsScalar svc.name
    → equal_fold fold svc.name q ≡ false
    → read fold q (install fold svc (some services)).0 ≡ read fold q (some services)
unfolding install
read-install_other fold svc q services sc other = elim (Option-cases (validate_service svc)) [
  | inr (e, bad) ↦ rw (install, bad) refl
  | inl good ↦
      let made = find_or_create_subkey fold svc.name services in
      let stands = subkey-find_or_create fold svc.name services sc in
      rw (install, good)
        (read-same fold q (write_subkey fold svc.name (write_service fold svc made.1) made.0)
          services
          (write_subkey-other fold svc.name q made.0 made.1 (write_service fold svc made.1) stands
              (write_service-name fold svc.name svc made.1
                ∙ subkey-fits fold svc.name made.0 made.1 stands)
              other
            ∙ find_or_create_subkey-other fold svc.name q services sc other))
]

-- `Delete` leaves what `Read` gives for a name that does not fold like its own as it was, when it
-- fails too.
pub read-delete_other :
    (fold : ℕ → ℕ) (n q : Text) (services : Key)
    → equal_fold fold n q ≡ false
    → read fold q (delete fold n (some services)).0 ≡ read fold q (some services)
unfolding delete
read-delete_other fold [] q services other = refl
read-delete_other fold (c ∷ n) q services other =
    read-same fold q (delete_subkey fold (c ∷ n) services).0 services
      (delete_subkey-other fold (c ∷ n) q services other)
