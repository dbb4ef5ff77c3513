-- ===== src/Wim/Chunk.antt =====
-- wim/chunk.go: how a compressed resource is split into chunks.
pub mod Sizes
use gowim.Base.{ℕ, ◌+◌, ◌-◌, ◌/◌, ◌%◌, ◌^◌, Option, none, some, ltb, ◌==◌, if◌then◌else◌, not}

unfoldable pub chunk_table_entry_size : ℕ → ℕ
chunk_table_entry_size uncompressed_size = if ltb 0xffff_ffff uncompressed_size then 8 else 4

-- `none` is the panic of a division by zero. The sum is a uint64; `- 1` is `+ (2 ^ 64 - 1)`.
unfoldable pub num_chunks_for : ℕ → ℕ → Option ℕ
num_chunks_for uncompressed_size chunk_size =
    if chunk_size == 0
    then none
    else some ((uncompressed_size + chunk_size + (2 ^ 64 - 1)) % 2 ^ 64 / chunk_size)

-- `num_chunks - 1` wraps to the largest uint64 for a resource with no chunk. The caller has a chunk
-- size that is not 0.
unfoldable pub chunk_uncompressed_size : ℕ → ℕ → ℕ → ℕ → ℕ
chunk_uncompressed_size i num_chunks uncompressed_size chunk_size =
    if not (i == (num_chunks + (2 ^ 64 - 1)) % 2 ^ 64)
    then chunk_size
    else let rem = uncompressed_size % chunk_size in if rem == 0 then chunk_size else rem
