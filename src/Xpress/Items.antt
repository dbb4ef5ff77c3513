-- ===== src/Xpress/Items.antt =====
-- What the loop of `DecompressInto` (xpress/decode.go) does with one item once it is read: the
-- checks on a match, and the write to the output at the current position.
pub mod Agree
use gowim.Base.{
  ℕ, ◌+◌, ◌-◌, List, [], ◌∷◌, length, set, ltb, ◌==◌, ◌||◌, if◌then◌else◌, Result, err, ok, ◌>>=◌,
}
use gowim.Bytes.{Bytes}
use gowim.Xpress.Lz77.{Item, literal, copy_of}
use gowim.Xpress.Copy.{xpress_copy}

-- The errors of `Decompress`. The last one is no error of the code: it marks a table index at
-- which Go panics.
pub data DecodeError : Type 0 where
  short_header : DecodeError
  bad_codeword : ℕ → DecodeError
  bad_offset : ℕ → ℕ → DecodeError
  overrun : ℕ → ℕ → DecodeError
  index_out_of_range : DecodeError

unfoldable pub item_length : Item → ℕ
item_length (literal b) = 1
item_length (copy_of len off) = len

unfoldable pub apply_item : Bytes → ℕ → Item → Result DecodeError Bytes
unfolding xpress_copy
apply_item dst pos (literal b) = ok (set dst pos b)
apply_item dst pos (copy_of len off) =
    if off == 0 || ltb pos off
    then err (bad_offset off pos)
    else if ltb (length dst - pos) len
    then err (overrun len pos)
    else ok (xpress_copy dst pos off len)

-- The items one after the other.
unfoldable pub apply_items : Bytes → ℕ → List Item → Result DecodeError Bytes
unfolding apply_item item_length
apply_items dst pos [] = ok dst
apply_items dst pos (it ∷ items) =
    apply_item dst pos it >>= λ dst'. apply_items dst' (pos + item_length it) items

-- How many bytes the items stand for.
unfoldable pub total_length : List Item → ℕ
unfolding item_length
total_length [] = 0
total_length (it ∷ items) = item_length it + total_length items
