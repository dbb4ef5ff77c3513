-- ===== src/Regf/Values/Laws.antt =====
-- The values of a key as a map from names, up to case, to data.
use gowim.Base.{
  ℕ, true, false, List, [], ◌∷◌, Option, none, some, if◌then◌else◌, ◌≡◌, refl, arith, ap, All,
  Bool-cases, inl, inr,
}
use gowim.Bytes.{Bytes}
use gowim.Text.{
  Text, IsScalar, equal_fold, equal_fold_refl, equal_fold_trans, equal_fold_right,
  utf16le_to_string-string_to_utf16le,
}
use gowim.Wim.Resource.{has_flag}
use gowim.Regf.Values.{Value, value_name, is_named, find_value, new_value, set_value, delete_value}

-- The type and the data of the value with the name.
abbrev content : Value → ℕ × Bytes
content v = (v.type, v.data_bytes)

abbrev content? : Option Value → Option (ℕ × Bytes)
content? none = none
content? (some v) = some (content v)

unfoldable pub get : (ℕ → ℕ) → Text → List Value → Option (ℕ × Bytes)
get fold name vs = content? (find_value fold name vs)

-- No two values have names that fold alike.
abbrev pub UniqueValues : (ℕ → ℕ) → List Value → Type 0
UniqueValues fold [] = Unit
UniqueValues fold (v ∷ vs) = (get fold (value_name v) vs ≡ none) × UniqueValues fold vs

new_value-name :
    (name : Text) (type : ℕ) (bytes : Bytes)
    → All IsScalar name
    → value_name (new_value name type bytes) ≡ name
unfolding value_name has_flag
new_value-name name type bytes sc = utf16le_to_string-string_to_utf16le name sc

is_named_lem :
    (fold : ℕ → ℕ) (n q : Text) (v : Value)
    → is_named fold n v ≡ true
    → is_named fold q v ≡ equal_fold fold n q
unfolding is_named
is_named_lem fold n q v h = equal_fold_trans fold (value_name v) n q h

is_named-content :
    (fold : ℕ → ℕ) (q : Text) (v : Value) (type : ℕ) (bytes : Bytes)
    → is_named fold q (record v { type = type; data_bytes = bytes }) ≡ is_named fold q v
unfolding is_named value_name
is_named-content fold q v type bytes = refl

is_named-new :
    (fold : ℕ → ℕ) (n q : Text) (type : ℕ) (bytes : Bytes)
    → All IsScalar n
    → is_named fold q (new_value n type bytes) ≡ equal_fold fold n q
unfolding is_named
is_named-new fold n q type bytes sc =
    ap (λ (t : Text). equal_fold fold t q) (new_value-name n type bytes sc)

get-cons :
    (fold : ℕ → ℕ) (q : Text) (v : Value) (vs : List Value)
    → get fold q (v ∷ vs) ≡ (if is_named fold q v then some (content v) else get fold q vs)
unfolding get find_value
get-cons fold q v vs = ground arith

is_named-right :
    (fold : ℕ → ℕ) (n q : Text) (v : Value)
    → equal_fold fold n q ≡ true
    → is_named fold q v ≡ is_named fold n v
unfolding is_named
is_named-right fold n q v h = equal_fold_right fold n q (value_name v) h

get-equal_fold :
    (fold : ℕ → ℕ) (n q : Text) (vs : List Value)
    → equal_fold fold n q ≡ true
    → get fold q vs ≡ get fold n vs
unfolding get find_value
get-equal_fold fold n q [] h = refl
get-equal_fold fold n q (v ∷ vs) h = rw (
  get-cons fold q v vs,
  get-cons fold n v vs,
  is_named-right fold n q v h,
  get-equal_fold fold n q vs h,
)

-- Setting a value gives its name, up to case, the type and the data, and leaves the values of other
-- names as they were. The name is of scalars, so that it reads back as it was written.
pub get-set_value :
    (fold : ℕ → ℕ) (n q : Text) (type : ℕ) (bytes : Bytes) (vs : List Value)
    → All IsScalar n
    → get fold q (set_value fold n type bytes vs)
      ≡ (if equal_fold fold n q then some (type, bytes) else get fold q vs)
unfolding set_value
get-set_value fold n q type bytes [] sc =
    let c = get-cons fold q (new_value n type bytes) [] in
    rw (c, is_named-new fold n q type bytes sc)
get-set_value fold n q type bytes (v ∷ vs) sc =
    let IH = get-set_value fold n q type bytes vs sc in
    let same = is_named_lem fold n q v in
    let changed : Value = record v { type = type; data_bytes = bytes } in
    elim (Bool-cases (is_named fold n v)) [
      | inl h ↦
          rw (set_value, h, get-cons fold q changed vs, get-cons fold q v vs, same h)
            (ground (arith, is_named-content fold q v type bytes, same h))
      | inr h ↦
          rw
            (set_value, h, get-cons fold q v vs, get-cons fold q v (set_value fold n type bytes vs))
            (ground (arith, is_named-right fold n q v))
    ]

get-nil : (fold : ℕ → ℕ) (q : Text) → get fold q [] ≡ none
unfolding get find_value
get-nil fold q = refl

get-twin :
    (fold : ℕ → ℕ) (q : Text) (v : Value) (vs : List Value)
    → is_named fold q v ≡ true
    → get fold q vs ≡ get fold (value_name v) vs
unfolding is_named
get-twin fold q v vs h = get-equal_fold fold (value_name v) q vs h

-- Where no two values have the same name up to case, deleting a value leaves none of its name, and
-- the values of other names as they were.
pub get-delete_value :
    (fold : ℕ → ℕ) (n q : Text) (vs : List Value)
    → UniqueValues fold vs
    → get fold q (delete_value fold n vs).0 ≡ (if equal_fold fold n q then none else get fold q vs)
unfolding delete_value
get-delete_value fold n q [] u = let empty = get-nil fold q in ground arith
get-delete_value fold n q (v ∷ vs) u =
    let rest = (delete_value fold n vs).0 in
    let IH = get-delete_value fold n q vs u.1 in
    let same = is_named_lem fold n q v in
    let twin = get-twin fold q v vs in
    elim (Bool-cases (is_named fold n v)) [
      | inl h ↦ rw (delete_value, h, get-cons fold q v vs, same h) (ground (arith, same h))
      | inr h ↦
          rw (delete_value, h, get-cons fold q v vs, get-cons fold q v rest)
            (ground (arith, is_named-right fold n q v))
    ]

renamed-name :
    (v : Value) (type : ℕ) (bytes : Bytes)
    → value_name (record v { type = type; data_bytes = bytes }) ≡ value_name v
unfolding value_name
renamed-name v type bytes = refl

is_named_self : (fold : ℕ → ℕ) (v : Value) → is_named fold (value_name v) v ≡ true
unfolding is_named
is_named_self fold v = equal_fold_refl fold (value_name v)

-- A write under another name leaves no second value of a value's name.
stays_gone :
    (fold : ℕ → ℕ) (n : Text) (v : Value) (vs ws : List Value) (o : Option (ℕ × Bytes))
    → is_named fold n v ≡ false
    → get fold (value_name v) vs ≡ none
    → get fold (value_name v) ws
      ≡ (if equal_fold fold n (value_name v) then o else get fold (value_name v) vs)
    → get fold (value_name v) ws ≡ none
stays_gone fold n v vs ws o h u e =
    ground (arith, is_named-right fold n (value_name v) v, is_named_self fold v)

pub set_value-UniqueValues :
    (fold : ℕ → ℕ) (n : Text) (type : ℕ) (bytes : Bytes) (vs : List Value)
    → All IsScalar n
    → UniqueValues fold vs
    → UniqueValues fold (set_value fold n type bytes vs)
unfolding set_value
set_value-UniqueValues fold n type bytes [] sc u =
    (get-nil fold (value_name (new_value n type bytes)), tt)
set_value-UniqueValues fold n type bytes (v ∷ vs) sc u = elim (Bool-cases (is_named fold n v)) [
  | inl h ↦ rw (set_value, h) (rw (renamed-name v type bytes) u.0, u.1)
  | inr h ↦
      rw (set_value, h)
        (
          stays_gone fold n v vs (set_value fold n type bytes vs) (some (type, bytes)) h u.0
              (get-set_value fold n (value_name v) type bytes vs sc),
          set_value-UniqueValues fold n type bytes vs sc u.1,
        )
]

pub delete_value-UniqueValues :
    (fold : ℕ → ℕ) (n : Text) (vs : List Value)
    → UniqueValues fold vs
    → UniqueValues fold (delete_value fold n vs).0
unfolding delete_value
delete_value-UniqueValues fold n [] u = u
delete_value-UniqueValues fold n (v ∷ vs) u = elim (Bool-cases (is_named fold n v)) [
  | inl h ↦ rw (delete_value, h) u.1
  | inr h ↦
      rw (delete_value, h)
        (
          stays_gone fold n v vs (delete_value fold n vs).0 none h u.0
              (get-delete_value fold n (value_name v) vs u.1),
          delete_value-UniqueValues fold n vs u.1,
        )
]

content?-some :
    (o : Option Value) (c : ℕ × Bytes)
    → content? o ≡ some c
    → (v : Value) × (o ≡ some v) × (v.data_bytes ≡ c.1)
content?-some none c h = cc
content?-some (some v) c h = (v, refl, cc)

pub find_value-get :
    (fold : ℕ → ℕ) (q : Text) (vs : List Value) (c : ℕ × Bytes)
    → get fold q vs ≡ some c
    → (v : Value) × (find_value fold q vs ≡ some v) × (v.data_bytes ≡ c.1)
unfolding get
find_value-get fold q vs c h = content?-some (find_value fold q vs) c h

content?-none : (o : Option Value) → content? o ≡ none → o ≡ none
content?-none none h = refl
content?-none (some v) h = cc

pub find_value-gone :
    (fold : ℕ → ℕ) (q : Text) (vs : List Value) → get fold q vs ≡ none → find_value fold q vs ≡ none
unfolding get
find_value-gone fold q vs h = content?-none (find_value fold q vs) h
