-- ===== src/Regf/Arena.antt =====
-- regf/cell.go: the cells of the hive bins data, read at an offset, and the arena that they are
-- allocated in.
pub mod RoundTrip
use gowim.Base.{
  ℕ, ◌+◌, ◌-◌, ◌*◌, ◌/◌, ◌%◌, ◌^◌, Bool, true, false, not, ◌||◌, ◌==◌, List, [], ◌∷◌, ◌++◌, length,
  ltb, leb, if◌then◌else◌, replicate, Result, ok, err,
}
use gowim.Bytes.{Bytes, bytes4, u32_at, write_at, slice}

pub data ArenaError : Type 0 where
  out_of_bounds implausible_size unaligned_size overruns : ArenaError

-- What `readCell` returns but its error.
pub record Cell : Type 0 where
  pub allocated : Bool
  pub data_bytes : Bytes
  pub next : ℕ

-- `int(-rawSize)` for a negative int32, and `int(rawSize)` else. The least int32 is its own
-- negative; 0 stands for it, which is refused like it.
unfoldable pub cell_size : ℕ → ℕ
cell_size raw = if ltb raw (2 ^ 31) then raw else if raw == 2 ^ 31 then 0 else 2 ^ 32 - raw

-- An int has 64 bits, so that no sum of `readCell` overflows.
unfoldable pub read_cell : Bytes → ℕ → Result ArenaError Cell
unfolding cell_size
read_cell hbins o =
    let raw = u32_at hbins o in
    let size = cell_size raw in
    if ltb (length hbins) (o + 4)
    then err out_of_bounds
    else if ltb size 4
    then err implausible_size
    else if not (size % 8 == 0)
    then err unaligned_size
    else if ltb (length hbins) (o + size)
    then err overruns
    else ok (record {
      allocated = leb (2 ^ 31) raw;
      data_bytes = slice hbins (o + 4) (size - 4);
      next = (o + size) % 2 ^ 32;
    })

-- `alignUp8`.
unfoldable pub align_up8_int : ℕ → ℕ
align_up8_int n = (n + 7) / 8 * 8

-- The cell of `alloc`: the first four of its bytes, and the rest, into which the data are copied.
unfoldable pub new_cell : Bytes → Bytes
unfolding align_up8_int
new_cell d =
    let size = align_up8_int (4 + length d) in
    bytes4 (2 ^ 32 - size % 2 ^ 32) ++ write_at (replicate (size - 4) 0) 0 d

-- The buffer after `alloc`, and the offset.
unfoldable pub alloc : Bytes → Bytes → Bytes × ℕ
unfolding new_cell
alloc d b = (b ++ new_cell d, length b % 2 ^ 32)
