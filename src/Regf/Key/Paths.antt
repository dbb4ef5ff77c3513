-- ===== src/Regf/Key/Paths.antt =====
-- Keys made, opened and deleted by their path.
use gowim.Base.{
  ℕ, true, false, List, [], ◌∷◌, some, ◌≡◌, refl, ap, ◌∙◌, arith, All, Option-cases, inl, inr,
}
use gowim.Text.{
  Text, IsScalar, equal_fold, equal_fold_refl, equal_fold_trans, split_path, split_path-IsScalar,
  utf16le_to_string-string_to_utf16le,
}
use gowim.Rose.{
  node, value, children, find, find-snoc_new, find-snoc_other, find-replace, find-replace_other,
  find-fits, find-remove_other,
}
use gowim.Wim.Resource.{has_flag}
use gowim.Regf.Key.{
  Key, KeyInfo, key_name, is_key_named, subkey, new_key, find_or_create_subkey, write_subkey,
  delete_subkey, open_from, open_path, find_or_create_from, find_or_create_path,
}

new_key-name : (n : Text) → All IsScalar n → key_name (value (new_key n)) ≡ n
unfolding key_name has_flag
new_key-name n sc = utf16le_to_string-string_to_utf16le n sc

new_key-is_named :
    (fold : ℕ → ℕ) (n : Text) → All IsScalar n → is_key_named fold n (value (new_key n)) ≡ true
unfolding is_key_named
new_key-is_named fold n sc = rw (new_key-name n sc) (equal_fold_refl fold n)

-- The subkey that is found or made stands in the key after.
pub subkey-find_or_create :
    (fold : ℕ → ℕ) (n : Text) (k : Key)
    → All IsScalar n
    → subkey fold n (find_or_create_subkey fold n k).0 ≡ some (find_or_create_subkey fold n k).1
unfolding find_or_create_subkey subkey
subkey-find_or_create fold n (node i cs) sc =
    ground (arith, find-snoc_new (is_key_named fold n) cs (new_key n), new_key-is_named fold n sc)

pub subkey-fits :
    (fold : ℕ → ℕ) (n : Text) (k c : Key)
    → subkey fold n k ≡ some c
    → is_key_named fold n (value c) ≡ true
unfolding subkey
subkey-fits fold n k c h = find-fits (is_key_named fold n) (children k) c h

pub subkey-write_subkey :
    (fold : ℕ → ℕ) (n : Text) (k c c' : Key)
    → subkey fold n k ≡ some c
    → is_key_named fold n (value c') ≡ is_key_named fold n (value c)
    → subkey fold n (write_subkey fold n c' k) ≡ some c'
unfolding write_subkey subkey
subkey-write_subkey fold n (node i cs) c c' h e =
    find-replace (is_key_named fold n) cs c' c h (rw e (find-fits (is_key_named fold n) cs c h))

find_or_create_subkey-value :
    (fold : ℕ → ℕ) (n : Text) (k : Key) → value (find_or_create_subkey fold n k).0 ≡ value k
unfolding find_or_create_subkey
find_or_create_subkey-value fold n (node i cs) = ground arith

write_subkey-value :
    (fold : ℕ → ℕ) (n : Text) (c k : Key) → value (write_subkey fold n c k) ≡ value k
unfolding write_subkey
write_subkey-value fold n c (node i cs) = refl

find_or_create_from-value :
    (fold : ℕ → ℕ) (ns : List Text) (k : Key) → value (find_or_create_from fold ns k).0 ≡ value k
unfolding find_or_create_from
find_or_create_from-value fold [] k = refl
find_or_create_from-value fold (n ∷ ns) k =
    rw
      (write_subkey-value fold n (find_or_create_from fold ns (find_or_create_subkey fold n k).1).0
        (find_or_create_subkey fold n k).0)
      (find_or_create_subkey-value fold n k)

open_from-find_or_create :
    (fold : ℕ → ℕ) (ns : List Text) (k : Key)
    → All (All IsScalar) ns
    → open_from fold ns (find_or_create_from fold ns k).0 ≡ some (find_or_create_from fold ns k).1
unfolding open_from find_or_create_from
open_from-find_or_create fold [] k sc = refl
open_from-find_or_create fold (n ∷ ns) k sc =
    let made = find_or_create_subkey fold n k in
    let deep = find_or_create_from fold ns made.1 in
    rw
      (
        open_from,
        subkey-write_subkey fold n made.0 made.1 deep.0 (subkey-find_or_create fold n k sc.0)
            (ap (is_key_named fold n) (find_or_create_from-value fold ns made.1)),
      )
      (open_from-find_or_create fold ns made.1 sc.1)

-- `OpenPath` finds at a path of Unicode scalar values the key that `FindOrCreatePath` returned.
pub open_path-find_or_create_path :
    (fold : ℕ → ℕ) (path : Text) (k : Key)
    → All IsScalar path
    → open_path fold path (find_or_create_path fold path k).0
      ≡ some (find_or_create_path fold path k).1
unfolding open_path find_or_create_path
open_path-find_or_create_path fold path k sc =
    open_from-find_or_create fold (split_path path) k (split_path-IsScalar path sc)

pub new_key-is_named_other :
    (fold : ℕ → ℕ) (n q : Text)
    → All IsScalar n
    → is_key_named fold q (value (new_key n)) ≡ equal_fold fold n q
unfolding is_key_named
new_key-is_named_other fold n q sc = ap (λ (t : Text). equal_fold fold t q) (new_key-name n sc)

pub is_key_named_lem :
    (fold : ℕ → ℕ) (n q : Text) (k : KeyInfo)
    → is_key_named fold n k ≡ true
    → is_key_named fold q k ≡ equal_fold fold n q
unfolding is_key_named
is_key_named_lem fold n q k h = equal_fold_trans fold (key_name k) n q h

-- The subkey that is found or made is named so, and the subkeys of other names stay.
pub find_or_create_subkey-other :
    (fold : ℕ → ℕ) (n q : Text) (k : Key)
    → All IsScalar n
    → equal_fold fold n q ≡ false
    → subkey fold q (find_or_create_subkey fold n k).0 ≡ subkey fold q k
unfolding find_or_create_subkey subkey
find_or_create_subkey-other fold n q (node i cs) sc other = ground (
  arith,
  find-snoc_other (is_key_named fold q) cs (new_key n),
  new_key-is_named_other fold n q sc,
)

pub write_subkey-other :
    (fold : ℕ → ℕ) (n q : Text) (k c c' : Key)
    → subkey fold n k ≡ some c
    → is_key_named fold n (value c') ≡ true
    → equal_fold fold n q ≡ false
    → subkey fold q (write_subkey fold n c' k) ≡ subkey fold q k
unfolding subkey write_subkey
write_subkey-other fold n q (node i cs) c c' h e other =
    find-replace_other (is_key_named fold n) (is_key_named fold q) cs c' c h
      (is_key_named_lem fold n q (value c) (find-fits (is_key_named fold n) cs c h) ∙ other)
      (is_key_named_lem fold n q (value c') e ∙ other)

pub delete_subkey-other :
    (fold : ℕ → ℕ) (n q : Text) (k : Key)
    → equal_fold fold n q ≡ false
    → subkey fold q (delete_subkey fold n k).0 ≡ subkey fold q k
unfolding delete_subkey subkey
delete_subkey-other fold n q (node i cs) other =
    elim (Option-cases (find (is_key_named fold n) cs)) [
      | inl gone ↦ ground arith
      | inr (c, here) ↦ ground (
        arith,
        find-remove_other (is_key_named fold n) (is_key_named fold q) cs c,
        is_key_named_lem fold n q (value c),
        find-fits (is_key_named fold n) cs c here,
      )
    ]
