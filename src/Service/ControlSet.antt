-- ===== src/Service/ControlSet.antt =====
-- service/controlset.go: which control set of a SYSTEM hive is the authoritative one.
use gowim.Base.{
  ℕ, zero, suc, ◌+◌, ◌-◌, ◌/◌, ◌%◌, [], ◌∷◌, ◌++◌, length, replicate, ltb, if◌then◌else◌, Option,
  none, some, Result, ok, err, ◌>>=◌,
}
use gowim.Bytes.{u32_at}
use gowim.Text.{Text}
use gowim.Rose.{value}
use gowim.Regf.Values.{find_value}
use gowim.Regf.Key.{Key, subkey}

pub data ControlSetError : Type 0 where
  nil_root no_select no_default short_value no_control_set : ControlSetError

-- The decimal digits of a number of at most that many digits, as fmt prints it.
unfoldable pub decimal : ℕ → ℕ → Text
decimal zero n = []
decimal (suc k) n =
    let higher = decimal k (n / 10) in
    if ltb n 10 then (b'0' + n) ∷ [] else higher ++ ((b'0' + n % 10) ∷ [])

-- `%03d` of a uint32, which has at most ten digits.
unfoldable pub padded : ℕ → Text
padded n = let s = decimal 10 n in replicate (3 - length s) b'0' ++ s

abbrev select_name : Text
select_name = b'S' ∷ b'e' ∷ b'l' ∷ b'e' ∷ b'c' ∷ b't' ∷ []

abbrev default_name : Text
default_name = b'D' ∷ b'e' ∷ b'f' ∷ b'a' ∷ b'u' ∷ b'l' ∷ b't' ∷ []

abbrev control_set_prefix : Text
control_set_prefix = b'C' ∷ b'o' ∷ b'n' ∷ b't' ∷ b'r' ∷ b'o' ∷ b'l' ∷ b'S' ∷ b'e' ∷ b't' ∷ []

abbrev or_error {ℓ} : {A : Type ℓ} → ControlSetError → Option A → Result ControlSetError A
or_error e none = err e
or_error e (some a) = ok a

unfoldable pub current_control_set : (ℕ → ℕ) → Option Key → Result ControlSetError Key
current_control_set fold none = err nil_root
current_control_set fold (some root) = do
  select_key ← or_error no_select (subkey fold select_name root)
  default_value ← or_error no_default (find_value fold default_name (value select_key).values)
  n ←
      if ltb (length default_value.data_bytes) 4
      then err short_value
      else ok (u32_at default_value.data_bytes 0)
  or_error no_control_set (subkey fold (control_set_prefix ++ padded n) root)
