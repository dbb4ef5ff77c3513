-- ===== src/Regf/Arena/RoundTrip.antt =====
-- A cell allocated and read.
use Prim.Native.Nat.add
use gowim.Base.{
  ℕ, zero, suc, ◌+◌, ◌-◌, ◌%◌, ◌^◌, ◌<◌, ◌≤◌, ◌≡◌, refl, arith, ap, ◌∙◌, true, [], ◌∷◌, ◌++◌,
  length, ok, length-append, length-replicate, append_assoc, sym, take-append, replicate, drop,
}
use gowim.Bytes.{
  Bytes, bytes4, u32_at, write_at, length-write_at, join4-byte, get_or-append, get_or-append_zero,
}
use gowim.Regf.Arena.{read_cell, cell_size, align_up8_int, new_cell, alloc}

abbrev zero_byte : ℕ
zero_byte = 0

write_at-zeros :
    (d : Bytes) (n m : ℕ) → n ≡ length d + m → write_at (replicate n 0) 0 d ≡ d ++ replicate m 0
write_at-zeros [] zero m h = ap (λ (k : ℕ). replicate k 0) (let e : 0 ≡ m = omega arith in e)
write_at-zeros [] (suc n) m h = ap (λ (k : ℕ). replicate k 0) (let e : suc n ≡ m = omega arith in e)
write_at-zeros (x ∷ d) zero m h = absurd (omega arith)
write_at-zeros (x ∷ d) (suc n) m h = ap (λ (b : Bytes). x ∷ b) (write_at-zeros d n m (omega arith))

-- A 32-bit field that stands behind a prefix.
u32_at-behind :
    (before rest : Bytes) (v : ℕ)
    → v < 2 ^ 32
    → u32_at (before ++ (bytes4 v ++ rest)) (length before) ≡ v
u32_at-behind before rest v h = simp (get_or-append_zero, get_or-append) (join4-byte v h)

cell_size-negative : (s : ℕ) → 0 < s → s < 2 ^ 31 → cell_size (2 ^ 32 - s % 2 ^ 32) ≡ s
unfolding cell_size
cell_size-negative s h k = ground arith

drop-past4 : (before xs : Bytes) → drop (length before + 4) (before ++ xs) ≡ drop 4 xs
drop-past4 [] xs = refl
drop-past4 (x ∷ before) xs =
    ap (λ (n : ℕ). drop n (x ∷ (before ++ xs))) (add.suc (length before) 4) ∙ drop-past4 before xs

pub align_up8_int_bounds :
    (n : ℕ) → (n ≤ align_up8_int n) × (align_up8_int n < n + 8) × (align_up8_int n % 8 ≡ 0)
unfolding align_up8_int
align_up8_int_bounds n = (omega arith, omega arith, omega arith)

read-contents :
    (before c rest : Bytes) (size : ℕ)
    → size ≡ 4 + length c
    → size % 8 ≡ 0
    → length before + size < 2 ^ 31
    → read_cell (before ++ ((bytes4 (2 ^ 32 - size % 2 ^ 32) ++ c) ++ rest)) (length before)
      ≡ ok (record { allocated = true; data_bytes = c; next = length before + size })
unfolding read_cell
read-contents before c rest size e aligned fits =
    let raw = 2 ^ 32 - size % 2 ^ 32 in
    let tail = c ++ rest in
    rw
      (
        u32_at-behind before tail raw (omega arith),
        cell_size-negative size (omega arith) (omega arith),
        drop-past4 before (bytes4 raw ++ tail),
        length-append before (bytes4 raw ++ tail),
      )
      (ground (arith, e, aligned, length-append c rest, take-append c rest))

-- `alloc` appends a cell at the end of the buffer and returns the offset where it stands, and
-- `readCell` reads there, whatever is appended later, an allocated cell with the data and at most
-- seven zeros behind them. The buffer is below 2 GiB.
pub read_cell-alloc :
    (d b rest : Bytes)
    → length b + align_up8_int (4 + length d) < 2 ^ 31
    → (pad : ℕ) × (pad < 8)
      × ((alloc d b).1 ≡ length b)
      × (read_cell ((alloc d b).0 ++ rest) (alloc d b).1
          ≡ ok (record {
            allocated = true;
            data_bytes = d ++ replicate pad 0;
            next = length (alloc d b).0;
          }))
unfolding alloc new_cell
read_cell-alloc d b rest fits =
    let size = align_up8_int (4 + length d) in
    let (low, high, aligned) = align_up8_int_bounds (4 + length d) in
    let pad = size - (4 + length d) in
    let filled = write_at-zeros d (size - 4) pad (omega arith) in
    let c = write_at (replicate (size - 4) 0) 0 d in
    let long : length c ≡ size - 4 =
      length-write_at (replicate (size - 4) 0) 0 d ∙ length-replicate (size - 4) zero_byte in
    let here : length b % 2 ^ 32 ≡ length b = omega arith in
    let whole = length-append b (bytes4 (2 ^ 32 - size % 2 ^ 32) ++ c) in
    let end : length (b ++ (bytes4 (2 ^ 32 - size % 2 ^ 32) ++ c)) ≡ length b + size =
      omega arith in
    let read = read-contents b c rest size (omega arith) aligned fits in
    (
      pad,
      omega arith,
      here,
      rw (here, end, append_assoc b (bytes4 (2 ^ 32 - size % 2 ^ 32) ++ c) rest, sym filled) read,
    )
