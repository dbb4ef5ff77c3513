-- ===== src/Regf/Data.antt =====
-- regf/bigdata.go, and the data of a value in regf/hive.go: `resolveValueData`, and what
-- `buildValueCell` does before it writes the vk cell.
pub mod RoundTrip
pub mod Segments
pub mod Whole
use gowim.Base.{
  ℕ, zero, suc, ◌+◌, ◌-◌, ◌*◌, ◌%◌, ◌^◌, Bool, true, false, not, ◌&&◌, ◌||◌, List, [], ◌∷◌, ◌++◌,
  length, ltb, leb, ◌==◌, if◌then◌else◌, replicate, take, drop, Result, ok, err, ◌>>=◌,
}
use gowim.Bytes.{Bytes, bytes2, bytes4, u16_at, u32_at, slice, write_at, eq_bytes}
use gowim.Regf.Arena.{ArenaError, Cell, read_cell, alloc}

abbrev pub db_header_size : ℕ
db_header_size = 12

abbrev pub db_magic : Bytes
db_magic = b'd' ∷ b'b' ∷ []

abbrev pub db_segment_max_size : ℕ
db_segment_max_size = 16344

abbrev pub data_size_inline_flag : ℕ
data_size_inline_flag = 0x8000_0000

abbrev pub max_inline_data_size : ℕ
max_inline_data_size = 4

abbrev pub no_cell_offset : ℕ
no_cell_offset = 0xffff_ffff

pub record DbCell : Type 0 where
  pub num_segments : ℕ
  pub segment_list_offset : ℕ

pub data DataError : Type 0 where
  db_too_short db_bad_signature list_too_short inline_too_large exceeds_cell : DataError
  cell_error : ArenaError → DataError

unfoldable pub parse_db_cell : Bytes → Result DataError DbCell
parse_db_cell b =
    if ltb (length b) db_header_size
    then err db_too_short
    else if not (eq_bytes (slice b 0 2) db_magic)
    then err db_bad_signature
    else ok (record { num_segments = u16_at b 2; segment_list_offset = u32_at b 4 })

unfoldable pub db_bytes : DbCell → Bytes
db_bytes d =
    let h0 = write_at (replicate db_header_size 0) 0 db_magic in
    let h1 = write_at h0 2 (bytes2 d.num_segments) in write_at h1 4 (bytes4 d.segment_list_offset)

-- The loop of `parseSegmentList`, with the rounds left and the index.
unfoldable pub read_segments : ℕ → ℕ → Bytes → List ℕ
read_segments zero i b = []
read_segments (suc n) i b = u32_at b (i * 4) ∷ read_segments n (i + 1) b

unfoldable pub parse_segment_list : Bytes → ℕ → Result DataError (List ℕ)
parse_segment_list b num_segments =
    if ltb (length b) (num_segments * 4)
    then err list_too_short
    else ok (read_segments num_segments 0 b)

unfoldable pub segment_list_bytes : List ℕ → Bytes
segment_list_bytes [] = []
segment_list_bytes (o ∷ os) = bytes4 o ++ segment_list_bytes os

abbrev pub read_data : Bytes → ℕ → Result DataError Bytes
read_data hbins off = elim (read_cell hbins off) [
  | err e ↦ err (cell_error e)
  | ok c ↦ ok c.data_bytes
]

-- The loop over the segments, with what remains of the size.
unfoldable pub join_segments : Bytes → List ℕ → ℕ → Result DataError Bytes
join_segments hbins [] remaining = ok []
join_segments hbins (so ∷ os) remaining = do
  seg ← read_data hbins so
  out ← join_segments hbins os (remaining - length (take remaining (take db_segment_max_size seg)))
  ok (take remaining (take db_segment_max_size seg) ++ out)

unfoldable pub resolve_segments : Bytes → ℕ → Bytes → Result DataError Bytes
resolve_segments hbins data_size cell = do
  db ← parse_db_cell cell
  list ← read_data hbins db.segment_list_offset
  offsets ← parse_segment_list list db.num_segments
  join_segments hbins offsets data_size

-- Whether a cell's data is taken for a data-block key.
unfoldable pub is_big : ℕ → Bytes → Bool
is_big data_size cell =
    ltb db_segment_max_size data_size && (leb 2 (length cell) && eq_bytes (slice cell 0 2) db_magic)

-- The flag is the top bit of the uint32 `data_size`.
unfoldable pub resolve_value_data : Bytes → ℕ → ℕ → Result DataError Bytes
resolve_value_data hbins data_size data_offset =
    let size = data_size - data_size_inline_flag in
    let out_of_line = do
      cell ← read_data hbins data_offset
      (if is_big data_size cell
          then resolve_segments hbins data_size cell
          else if ltb (length cell) data_size
          then err exceeds_cell
          else ok (take data_size cell))
    in if leb data_size_inline_flag data_size
      then (if ltb max_inline_data_size size
          then err inline_too_large
          else ok (take size (bytes4 data_offset)))
      else if data_size == 0
      then ok []
      else out_of_line

unfoldable pub is_inlinable_data_size : ℕ → Bool
is_inlinable_data_size n = (n == 0 || n == 1) || (n == 2 || n == 4)

-- The loop that allocates the segments, with the rounds left: the buffer and the offsets.
unfoldable pub alloc_segments : ℕ → Bytes → Bytes → Bytes × List ℕ
alloc_segments zero contents b = (b, [])
alloc_segments (suc n) [] b = (b, [])
alloc_segments (suc n) (x ∷ xs) b =
    let (b1, o) = alloc (take db_segment_max_size (x ∷ xs)) b in
    let (b2, os) = alloc_segments n (drop db_segment_max_size (x ∷ xs)) b1 in (b2, o ∷ os)

-- The buffer, `dataSize` and `dataOffset`.
pub record Stored : Type 0 where
  pub buf : Bytes
  pub size : ℕ
  pub offset : ℕ

unfoldable pub store_segments : Bytes → Bytes → Stored
store_segments contents b =
    let (b1, os) = alloc_segments (length contents) contents b in
    let (b2, list) = alloc (segment_list_bytes os) b1 in
    let (b3, o) =
      alloc (db_bytes (record { num_segments = length os % 2 ^ 16; segment_list_offset = list }))
        b2 in
    record { buf = b3; size = length contents % 2 ^ 32; offset = o }

unfoldable pub store_data : Bytes → Bytes → Stored
store_data contents b =
    let n = length contents in
    if n == 0
    then record { buf = b; size = 0; offset = no_cell_offset }
    else if is_inlinable_data_size n
    then record {
      buf = b;
      size = n + data_size_inline_flag;
      offset = u32_at (write_at (replicate 4 0) 0 contents) 0;
    }
    else if leb n db_segment_max_size
    then (let (b1, o) = alloc contents b in record { buf = b1; size = n; offset = o })
    else store_segments contents b
