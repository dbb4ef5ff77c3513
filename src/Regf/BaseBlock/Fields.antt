-- ===== src/Regf/BaseBlock/Fields.antt =====
-- The fields of a base block, read from where they were written.
use gowim.Base.{
  ℕ, zero, suc, ◌+◌, ◌^◌, ◌<◌, ◌≡◌, refl, ap, sym, ◌∙◌, arith, [], ◌∷◌, ◌++◌, length, drop, get_or,
}
use gowim.Bytes.{Bytes, bytes4, u32_at, u64_at, slice, join4-byte, join8-byte, drop-behind, take-at}
use gowim.Regf.BaseBlock.{BaseBlock, fields_at, number_fields}

pub record FitsBlock (b : BaseBlock) : Type 0 where
  pub primary_fits : b.primary_sequence < 2 ^ 32
  pub secondary_fits : b.secondary_sequence < 2 ^ 32
  pub written_fits : b.last_written < 2 ^ 64
  pub major_fits : b.major_version < 2 ^ 32
  pub minor_fits : b.minor_version < 2 ^ 32
  pub type_fits : b.file_type < 2 ^ 32
  pub format_fits : b.file_format < 2 ^ 32
  pub root_fits : b.root_cell_offset < 2 ^ 32
  pub size_fits : b.hive_bins_data_size < 2 ^ 32
  pub factor_fits : b.clustering_factor < 2 ^ 32
  pub name_length : length b.file_name ≡ 64
  pub reserved_length : length b.reserved ≡ 396
  pub tail_length : length b.tail ≡ 3576
  pub boot_type_fits : b.boot_type < 2 ^ 32
  pub boot_recover_fits : b.boot_recover < 2 ^ 32

get_or-drop : (o : ℕ) (b : Bytes) (k n : ℕ) → n ≡ o + k → get_or (drop o b) k 0 ≡ get_or b n 0
get_or-drop zero b k n e = ap (λ (m : ℕ). get_or b m 0) (omega arith)
get_or-drop (suc o) [] k zero e = refl
get_or-drop (suc o) [] k (suc n) e = refl
get_or-drop (suc o) (x ∷ b) k zero e = absurd (omega arith)
get_or-drop (suc o) (x ∷ b) k (suc n) e = get_or-drop o b k n (omega arith)

-- A dword at an offset where its bytes stand.
u32_at-drop : (b r : Bytes) (o v : ℕ) → drop o b ≡ bytes4 v ++ r → v < 2 ^ 32 → u32_at b o ≡ v
u32_at-drop b r o v h f =
    rw
      (
        sym (get_or-drop o b 0 o (omega arith)),
        sym (get_or-drop o b 1 (o + 1) refl),
        sym (get_or-drop o b 2 (o + 2) refl),
        sym (get_or-drop o b 3 (o + 3) refl),
        h,
      )
      (join4-byte v f)

-- The block in bytes with the checksum `sum`, in front of `r`.
abbrev pub laid : BaseBlock → ℕ → Bytes → Bytes
laid b sum r =
    number_fields b
    ++ (b.file_name
        ++ (b.reserved
            ++ (bytes4 sum ++ (b.tail ++ (bytes4 b.boot_type ++ (bytes4 b.boot_recover ++ r))))))

-- The numbers are read from where they were written.
pub numbers_at :
    (b : BaseBlock) (r : Bytes)
    → FitsBlock b
    → (u32_at (number_fields b ++ r) 4 ≡ b.primary_sequence)
      × (u32_at (number_fields b ++ r) 8 ≡ b.secondary_sequence)
      × (u64_at (number_fields b ++ r) 12 ≡ b.last_written)
      × (u32_at (number_fields b ++ r) 20 ≡ b.major_version)
      × (u32_at (number_fields b ++ r) 24 ≡ b.minor_version)
      × (u32_at (number_fields b ++ r) 28 ≡ b.file_type)
      × (u32_at (number_fields b ++ r) 32 ≡ b.file_format)
      × (u32_at (number_fields b ++ r) 36 ≡ b.root_cell_offset)
      × (u32_at (number_fields b ++ r) 40 ≡ b.hive_bins_data_size)
      × (u32_at (number_fields b ++ r) 44 ≡ b.clustering_factor)
unfolding number_fields
numbers_at b r f = (
  join4-byte b.primary_sequence f.primary_fits,
  join4-byte b.secondary_sequence f.secondary_fits,
  join8-byte b.last_written f.written_fits,
  join4-byte b.major_version f.major_fits,
  join4-byte b.minor_version f.minor_fits,
  join4-byte b.file_type f.type_fits,
  join4-byte b.file_format f.format_fits,
  join4-byte b.root_cell_offset f.root_fits,
  join4-byte b.hive_bins_data_size f.size_fits,
  join4-byte b.clustering_factor f.factor_fits,
)

drop-number_fields : (b : BaseBlock) (r : Bytes) → drop 48 (number_fields b ++ r) ≡ r
unfolding number_fields
drop-number_fields b r = refl

-- The parts behind them.
pub parts_at :
    (b : BaseBlock) (sum : ℕ) (r : Bytes)
    → FitsBlock b
    → sum < 2 ^ 32
    → (slice (laid b sum r) 48 64 ≡ b.file_name)
      × (slice (laid b sum r) 112 396 ≡ b.reserved)
      × (u32_at (laid b sum r) 508 ≡ sum)
      × (slice (laid b sum r) 512 3576 ≡ b.tail)
      × (u32_at (laid b sum r) 4088 ≡ b.boot_type)
      × (u32_at (laid b sum r) 4092 ≡ b.boot_recover)
parts_at b sum r f h =
    let p = laid b sum r in
    let ends = bytes4 b.boot_recover ++ r in
    let boots = bytes4 b.boot_type ++ ends in
    let tail = b.tail ++ boots in
    let stored = bytes4 sum ++ tail in
    let h48 : drop 48 p ≡ b.file_name ++ (b.reserved ++ stored) =
      drop-number_fields b (b.file_name ++ (b.reserved ++ stored)) in
    let h112 =
      drop-behind p b.file_name (b.reserved ++ stored) 48 112 (omega (arith, f.name_length)) h48 in
    let h508 = drop-behind p b.reserved stored 112 508 (omega (arith, f.reserved_length)) h112 in
    let h512 = drop-behind p (bytes4 sum) tail 508 512 refl h508 in
    let h4088 = drop-behind p b.tail boots 512 4088 (omega (arith, f.tail_length)) h512 in
    let h4092 = drop-behind p (bytes4 b.boot_type) ends 4088 4092 refl h4088 in
    (
      ap (λ (n : ℕ). slice p 48 n) (sym f.name_length)
          ∙ take-at p b.file_name (b.reserved ++ stored) 48 h48,
      ap (λ (n : ℕ). slice p 112 n) (sym f.reserved_length) ∙ take-at p b.reserved stored 112 h112,
      u32_at-drop p tail 508 sum h508 h,
      ap (λ (n : ℕ). slice p 512 n) (sym f.tail_length) ∙ take-at p b.tail boots 512 h512,
      u32_at-drop p ends 4088 b.boot_type h4088 f.boot_type_fits,
      u32_at-drop p r 4092 b.boot_recover h4092 f.boot_recover_fits,
    )

pub fields_at-laid :
    (b : BaseBlock) (sum : ℕ) (r : Bytes)
    → FitsBlock b
    → sum < 2 ^ 32
    → fields_at (laid b sum r) sum ≡ record b { checksum = sum }
unfolding fields_at
fields_at-laid b sum r f h =
    let rest =
      b.file_name
      ++ (b.reserved
          ++ (bytes4 sum ++ (b.tail ++ (bytes4 b.boot_type ++ (bytes4 b.boot_recover ++ r))))) in
    let (n1, n2, n3, n4, n5, n6, n7, n8, n9, n10) = numbers_at b rest f in
    let (p1, p2, p3, p4, p5, p6) = parts_at b sum r f h in
    rw (fields_at, n1, n2, n3, n4, n5, n6, n7, n8, n9, n10, p1, p2, p4, p5, p6) refl
