-- ===== src/Tests/ValueData.antt =====
-- The data of values at concrete inputs.
use gowim.Base.{arith, ◌≡◌, [], ◌∷◌, ◌++◌, ok}
use gowim.Bytes.{Bytes}
use gowim.Regf.Arena.{alloc, new_cell, align_up8_int}
use gowim.Regf.Data.{store_data, resolve_value_data, is_inlinable_data_size}
use gowim.Regf.Data.Whole.{resolve-store_data}

abbrev value_bytes : Bytes
value_bytes = 7 ∷ 8 ∷ 9 ∷ []

resolve-store_data_example :
    resolve_value_data
      ((store_data value_bytes (1 ∷ [])).buf ++ (2 ∷ 3 ∷ []))
      (store_data value_bytes (1 ∷ [])).size
      (store_data value_bytes (1 ∷ [])).offset
    ≡ ok value_bytes
unfolding store_data is_inlinable_data_size alloc new_cell align_up8_int
resolve-store_data_example =
    resolve-store_data value_bytes (1 ∷ []) (2 ∷ 3 ∷ []) (ground arith) (omega arith) (omega arith)
