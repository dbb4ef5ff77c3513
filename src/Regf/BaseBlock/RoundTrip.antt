-- ===== src/Regf/BaseBlock/RoundTrip.antt =====
-- A base block is read back from its bytes.
use gowim.Base.{
  ltb, ◌==◌, true, false, ℕ, ◌^◌, ◌<◌, ◌≤◌, ◌≡◌, ◌≢◌, refl, ap, sym, ◌∙◌, arith, [], ◌++◌, length,
  append_assoc, length-append, take-append, take, replicate, ok,
}
use gowim.Bytes.{Bytes, bytes4, u32_at, slice, eq_bytes}
use gowim.Regf.BaseBlock.{
  BaseBlock, xor_dwords, compute_checksum, fields_at, parse_base_block, number_fields, summed,
  append_base_block, base_block_magic,
}
use gowim.Regf.BaseBlock.Checksum.{xor_dwords-append, xor_dwords-lt}
use gowim.Regf.BaseBlock.Fields.{FitsBlock, laid, numbers_at, parts_at, fields_at-laid}

same_number : (n : ℕ) → (n == n) ≡ true
same_number n = ground arith

other_number : (n m : ℕ) → n ≢ m → (n == m) ≡ false
other_number n m h = ground arith

not_short : (n : ℕ) → 4096 ≤ n → ltb n 4096 ≡ false
not_short n h = ground arith

-- The parser on the 4096 bytes `b` that start `contents`.
parse_steps :
    (contents b : Bytes) (sum : ℕ) (block : BaseBlock)
    → take 4096 contents ≡ b
    → 4096 ≤ length contents
    → eq_bytes (slice b 0 4) base_block_magic ≡ true
    → compute_checksum b ≡ ok sum
    → u32_at b 508 ≡ sum
    → (u32_at b 24 == 1) ≡ false
    → fields_at b sum ≡ block
    → parse_base_block contents ≡ ok block
unfolding parse_base_block
parse_steps contents b sum block first long magic summed_is stored version fields =
    let enough : ltb (length contents) 4096 ≡ false = not_short (length contents) long in
    rw (first, enough, magic, summed_is, stored, same_number sum, version, fields) refl

sum_of : BaseBlock → ℕ
sum_of b = xor_dwords 127 0 0 (summed b)

magic_at :
    (b : BaseBlock) (r : Bytes)
    → eq_bytes (slice (number_fields b ++ r) 0 4) base_block_magic ≡ true
unfolding number_fields eq_bytes
magic_at b r = refl

length-number_fields : (b : BaseBlock) → length (number_fields b) ≡ 48
unfolding number_fields
length-number_fields b = refl

length-summed : (b : BaseBlock) → FitsBlock b → length (summed b) ≡ 508
unfolding summed
length-summed b f = omega (
  arith,
  length-number_fields b,
  length-append (number_fields b) (b.file_name ++ b.reserved),
  length-append b.file_name b.reserved,
  f.name_length,
  f.reserved_length,
)

-- The checksum of bytes that start with the summed ones.
checksum-summed :
    (b : BaseBlock) (r : Bytes) → FitsBlock b → compute_checksum (summed b ++ r) ≡ ok (sum_of b)
unfolding compute_checksum sum_of
checksum-summed b r f =
    let size = length-summed b f in
    rw (xor_dwords-append 127 0 0 (summed b) r (omega (arith, size)))
      (ground (arith, size, length-append (summed b) r))

-- `AppendTo` writes 4096 bytes with their checksum, whatever the field holds, and `ParseBaseBlock`
-- accepts them and reads the block back with that checksum, if it is not of version 1.1.
pub parse-append_base_block :
    (b : BaseBlock) (dst rest : Bytes)
    → FitsBlock b
    → b.minor_version ≢ 1
    → (out : Bytes) × ((sum : ℕ) × (append_base_block b dst ≡ ok (dst ++ out))
        × (length out ≡ 4096)
        × (compute_checksum out ≡ ok sum)
        × (parse_base_block (out ++ rest) ≡ ok (record b { checksum = sum })))
parse-append_base_block b dst rest f version =
    let sum = sum_of b in
    let behind = bytes4 sum ++ (b.tail ++ (bytes4 b.boot_type ++ bytes4 b.boot_recover)) in
    let out = summed b ++ behind in
    let bound : sum < 2 ^ 32 = unfold sum_of in xor_dwords-lt 127 0 0 (summed b) (omega arith) in
    let as_laid : out ≡ laid b sum [] =
      unfold summed in
      append_assoc (number_fields b) (b.file_name ++ b.reserved) behind
      ∙ ap (λ (x : Bytes). number_fields b ++ x) (append_assoc b.file_name b.reserved behind) in
    let size : length out ≡ 4096 = omega (
      arith,
      length-append (summed b) behind,
      length-summed b f,
      f.tail_length,
      length-append b.tail (bytes4 b.boot_type ++ bytes4 b.boot_recover),
    ) in
    let rest_of = b.file_name ++ (b.reserved ++ behind) in
    let first : take 4096 (out ++ rest) ≡ laid b sum [] =
      ap (λ (n : ℕ). take n (out ++ rest)) (sym size) ∙ take-append out rest ∙ as_laid in
    let summed_is : compute_checksum out ≡ ok sum = checksum-summed b behind f in
    let (n1, n2, n3, n4, n5, n6, n7, n8, n9, n10) = numbers_at b rest_of f in
    let (p1, p2, p3, p4, p5, p6) = parts_at b sum [] f bound in
    let read =
      parse_steps (out ++ rest) (laid b sum []) sum (record b { checksum = sum }) first
        (omega (arith, size, length-append out rest)) (magic_at b rest_of)
        (ap compute_checksum (sym as_laid) ∙ summed_is) p3
        (ap (λ (n : ℕ). n == 1) n5 ∙ other_number b.minor_version 1 version)
        (fields_at-laid b sum [] f bound) in
    (
      out,
      (
        sum,
        unfold append_base_block in rw (checksum-summed b (replicate 3588 0) f) refl,
        size,
        summed_is,
        read,
      ),
    )
