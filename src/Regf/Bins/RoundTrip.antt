-- ===== src/Regf/Bins/RoundTrip.antt =====
-- A bin written at some offset of the hive bins and parsed there.
use Prim.Native.Nat.add
use native.Mathlib.Nat.{zero-add}
use gowim.Base.{
  ℕ, ◌+◌, ◌%◌, ◌^◌, ◌<◌, ◌≡◌, arith, ap, ◌∙◌, [], ◌∷◌, ◌++◌, length, ok, length-append, take-append,
  drop-append, replicate, drop,
}
use gowim.Bytes.{Bytes, eq_bytes, join4-byte, join8-byte}
use gowim.Regf.Bins.{HBin, parse_hbin, write_header}

-- The fields are in the range of their types, and the size is that of the header and the cells, a
-- multiple of 8.
pub record FitsBin (b : HBin) : Type 0 where
  pub offset_fits : b.offset < 2 ^ 32
  pub size_fits : b.size < 2 ^ 32
  pub reserved1_fits : b.reserved1 < 2 ^ 32
  pub reserved2_fits : b.reserved2 < 2 ^ 32
  pub timestamp_fits : b.timestamp < 2 ^ 64
  pub spare_fits : b.spare < 2 ^ 32
  pub size_whole : b.size ≡ 32 + length b.cells
  pub size_aligned : b.size % 8 ≡ 0

drop-past : (before xs : Bytes) (k : ℕ) → drop (length before + k) (before ++ xs) ≡ drop k xs
drop-past [] xs k = ap (λ (n : ℕ). drop n xs) (zero-add k)
drop-past (x ∷ before) xs k =
    ap (λ (n : ℕ). drop n (x ∷ (before ++ xs))) (add.suc (length before) k) ∙ drop-past before xs k

-- A bin whose header is written over 32 bytes and followed by its cells is read back by `parseHBin`
-- at the offset where it stands, with the offset behind it, which fits a uint32; the bin is in
-- range.
pub parse-write_header :
    (b : HBin) (before rest : Bytes)
    → FitsBin b
    → length before + b.size < 2 ^ 32
    → parse_hbin (before ++ (write_header b (replicate 32 0) ++ (b.cells ++ rest))) (length before)
      ≡ ok (b, length before + b.size)
unfolding parse_hbin write_header eq_bytes
parse-write_header b before rest f fits =
    let bin = write_header b (replicate 32 0) ++ (b.cells ++ rest) in
    rw (drop-append before bin, drop-past before bin 32, length-append before bin)
      (ground (
        arith,
        join4-byte b.offset f.offset_fits,
        join4-byte b.size f.size_fits,
        join4-byte b.reserved1 f.reserved1_fits,
        join4-byte b.reserved2 f.reserved2_fits,
        join8-byte b.timestamp f.timestamp_fits,
        join4-byte b.spare f.spare_fits,
        f.size_whole,
        f.size_aligned,
        take-append b.cells rest,
        length-append b.cells rest,
      ))
