-- ===== src/Wim/Security.antt =====
-- wim/security.go: the table of security descriptors at the head of an image's metadata.
pub mod RoundTrip
use gowim.Base.{
  ℕ, zero, suc, ◌+◌, ◌-◌, ◌*◌, ◌/◌, ◌%◌, ◌^◌, Bool, true, false, List, [], ◌∷◌, ◌++◌, length, ltb,
  ◌==◌, if◌then◌else◌, replicate, Result, ok, err, ◌>>=◌,
}
use gowim.Bytes.{Bytes, bytes4, bytes8, u32_at, u64_at, slice}

-- The descriptors, as opaque byte blobs.
abbrev pub Descriptors : Type 0
Descriptors = List Bytes

pub data SecurityError : Type 0 where
  truncated too_many_entries total_exceeds_resource sizes_overflow : SecurityError
  size_too_large descriptors_overflow : SecurityError

-- `(n + 7) &^ 7` on a uint64.
unfoldable pub align_up8 : ℕ → ℕ
align_up8 n = (n + 7) % 2 ^ 64 / 8 * 8

-- The loop over the sizes array, with the rounds left and the index `i`.
unfoldable pub read_sizes : ℕ → ℕ → Bytes → Result SecurityError (List ℕ)
read_sizes zero i b = ok []
read_sizes (suc n) i b =
    let size = u64_at b (8 + i * 8) in
    let rest = (do sizes ← read_sizes n (i + 1) b; ok (size ∷ sizes)) in
    if ltb 0xffff_ffff size then err size_too_large else rest

-- The loop over the descriptors, with `off`, `runningLen` and `totalLength`.
unfoldable pub read_descriptors : List ℕ → ℕ → ℕ → ℕ → Bytes → Result SecurityError Descriptors
read_descriptors [] off running total b = ok []
read_descriptors (size ∷ sizes) off running total b =
    let empty = (do ds ← read_descriptors sizes off running total b; ok ([] ∷ ds)) in
    let filled = do
      ds ← read_descriptors sizes (off + size) (running + size) total b
      ok (slice b off size ∷ ds)
    in if size == 0
      then empty
      else if ltb total (running + size)
      then err descriptors_overflow
      else filled

-- `totalLength` after the two adjustments.
unfoldable pub total_length : ℕ → ℕ
unfolding align_up8
total_length stored = let n = align_up8 stored in if n == 0 then 8 else n

-- The descriptors, and how many bytes they take.
unfoldable pub parse_security_data : Bytes → Result SecurityError (Descriptors × ℕ)
parse_security_data b =
    let total = total_length (u32_at b 0) in
    let num = u32_at b 4 in
    let body = 8 + num * 8 in
    let rest = do
      sizes ← read_sizes num 0 b
      ds ← read_descriptors sizes body body total b
      ok (ds, total)
    in if ltb (length b) 8
      then err truncated
      else if ltb 0x8000_0000 num
      then err too_many_entries
      else if ltb (length b) total
      then err total_exceeds_resource
      else if ltb total body
      then err sizes_overflow
      else if num == 0
      then ok ([], total)
      else rest

unfoldable pub descriptors_size : Descriptors → ℕ
descriptors_size [] = 0
descriptors_size (d ∷ ds) = length d + descriptors_size ds

-- `EncodedLen`.
unfoldable pub encoded_len : Descriptors → ℕ
unfolding align_up8 descriptors_size
encoded_len ds = if length ds == 0 then 8 else align_up8 (8 + length ds * 8 + descriptors_size ds)

unfoldable pub size_fields : Descriptors → Bytes
size_fields [] = []
size_fields (d ∷ ds) = bytes8 (length d) ++ size_fields ds

unfoldable pub contents : Descriptors → Bytes
contents [] = []
contents (d ∷ ds) = d ++ contents ds

-- What `AppendTo` appends; the last loop pads with zeros up to `totalLength`.
unfoldable pub security_bytes : Descriptors → Bytes
unfolding encoded_len size_fields contents
security_bytes ds =
    let total = encoded_len ds in
    let body = bytes4 total ++ (bytes4 (length ds) ++ (size_fields ds ++ contents ds)) in
    body ++ replicate (total - length body) 0

unfoldable pub append_security_data : Descriptors → Bytes → Bytes
unfolding security_bytes
append_security_data ds dst = dst ++ security_bytes ds
