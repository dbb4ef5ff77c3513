-- ===== src/Regf/Values.antt =====
-- regf/vk.go's `Value` and regf/key.go's operations on the values of a key. A pointer to a value is
-- the value; a write through it replaces the first value that fits.
pub mod Laws
use gowim.Base.{
  ℕ, Bool, true, false, List, [], ◌∷◌, ◌++◌, length, Option, none, some, if◌then◌else◌, ◌==◌,
  Result, ok, err,
}
use gowim.Bytes.{Bytes, u32_at}
use gowim.Text.{Text, utf8_to_string, utf16le_to_string, string_to_utf16le, equal_fold}
use gowim.Wim.Resource.{has_flag}

pub record Value : Type 0 where
  pub name : Bytes
  pub type : ℕ
  pub flags : ℕ
  pub data_bytes : Bytes

abbrev pub reg_sz : ℕ
reg_sz = 1

abbrev pub reg_expand_sz : ℕ
reg_expand_sz = 2

abbrev pub reg_dword : ℕ
reg_dword = 4

abbrev pub reg_multi_sz : ℕ
reg_multi_sz = 7

-- `NameUTF8`, whose string is that of the bytes, in UTF-8, where the name is not UTF-16.
unfoldable pub value_name : Value → Text
unfolding has_flag utf8_to_string
value_name v = if has_flag v.flags 1 then utf8_to_string v.name else utf16le_to_string v.name

unfoldable pub is_named : (ℕ → ℕ) → Text → Value → Bool
unfolding value_name equal_fold
is_named fold name v = equal_fold fold (value_name v) name

unfoldable pub find_value : (ℕ → ℕ) → Text → List Value → Option Value
find_value fold name [] = none
find_value fold name (v ∷ vs) = if is_named fold name v then some v else find_value fold name vs

abbrev pub new_value : Text → ℕ → Bytes → Value
new_value name type bytes = record {
  name = string_to_utf16le name;
  type = type;
  flags = 0;
  data_bytes = bytes;
}

unfoldable pub set_value : (ℕ → ℕ) → Text → ℕ → Bytes → List Value → List Value
set_value fold name type bytes [] = new_value name type bytes ∷ []
set_value fold name type bytes (v ∷ vs) =
    let rest = set_value fold name type bytes vs in
    if is_named fold name v then record v { type = type; data_bytes = bytes } ∷ vs else v ∷ rest

-- The values after `DeleteValue`, and what it reports.
unfoldable pub delete_value : (ℕ → ℕ) → Text → List Value → List Value × Bool
delete_value fold name [] = ([], false)
delete_value fold name (v ∷ vs) =
    let (rest, done) = delete_value fold name vs in
    if is_named fold name v then (vs, true) else (v ∷ rest, done)

-- `DWORD`; `none` is the error for another length than 4.
unfoldable pub dword : Value → Option ℕ
dword v = if length v.data_bytes == 4 then some (u32_at v.data_bytes 0) else none

unfoldable pub sz : Value → Text
unfolding utf16le_to_string
sz v = utf16le_to_string v.data_bytes
