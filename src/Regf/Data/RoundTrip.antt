-- ===== src/Regf/Data/RoundTrip.antt =====
-- The data of a value, read back from where they were stored.
use gowim.Base.{
  ℕ, ◌+◌, ◌*◌, ◌%◌, ◌^◌, ◌<◌, ◌≤◌, ◌≡◌, refl, ap, arith, true, false, [], ◌∷◌, ◌++◌, length, ltb,
  leb, ◌==◌, All, replicate, take, ok, take-append, length-append,
}
use gowim.Bytes.{Bytes, IsByte, bytes4, byte, join4}
use gowim.Base.{◌/◌, ◌≢◌}
use gowim.Regf.Arena.{alloc, align_up8_int}
use gowim.Regf.Arena.RoundTrip.{read_cell-alloc}
use gowim.Regf.Data.{resolve_value_data, store_data, is_inlinable_data_size, is_big, read_data}

-- The bytes that were joined.
byte-join4 :
    (a b c d : ℕ)
    → IsByte a
    → IsByte b
    → IsByte c
    → IsByte d
    → bytes4 (join4 a b c d) ≡ a ∷ b ∷ c ∷ d ∷ []
unfolding byte join4
byte-join4 a b c d ha hb hc hd =
    let e0 : (a + 256 * (b + 256 * (c + 256 * d))) % 256 ≡ a = omega arith in
    let e1 : (a + 256 * (b + 256 * (c + 256 * d))) / 256 ≡ b + 256 * (c + 256 * d) = omega arith in
    let f1 : (b + 256 * (c + 256 * d)) % 256 ≡ b = omega arith in
    let e2 : (b + 256 * (c + 256 * d)) / 256 ≡ c + 256 * d = omega arith in
    let f2 : (c + 256 * d) % 256 ≡ c = omega arith in
    let e3 : (c + 256 * d) / 256 ≡ d = omega arith in
    let f3 : d % 256 ≡ d = omega arith in rw (e0, e1, f1, e2, f2, e3, f3) refl

-- Data that the offset itself holds.
pub resolve-inline :
    (contents b hbins : Bytes)
    → is_inlinable_data_size (length contents) ≡ true
    → All IsByte contents
    → resolve_value_data hbins (store_data contents b).size (store_data contents b).offset
      ≡ ok contents
unfolding resolve_value_data store_data is_inlinable_data_size
resolve-inline [] b hbins h f = refl
resolve-inline (x ∷ []) b hbins h (hx, f) =
    ap (λ (o : Bytes). ok (take 1 o))
      (byte-join4 x 0 0 0 hx (omega arith) (omega arith) (omega arith))
resolve-inline (x ∷ y ∷ []) b hbins h (hx, (hy, f)) =
    ap (λ (o : Bytes). ok (take 2 o)) (byte-join4 x y 0 0 hx hy (omega arith) (omega arith))
resolve-inline (x ∷ y ∷ z ∷ []) b hbins h f = absurd (ground arith)
resolve-inline (x ∷ y ∷ z ∷ w ∷ []) b hbins h (hx, (hy, (hz, (hw, f)))) =
    ap (λ (o : Bytes). ok (take 4 o)) (byte-join4 x y z w hx hy hz hw)
resolve-inline (x ∷ y ∷ z ∷ w ∷ v ∷ vs) b hbins h f = absurd (ground arith)

-- What a cell at `off` gives: these data, with at most seven zeros behind them.
abbrev pub Holds : Bytes → ℕ → Bytes → Type 0
Holds hbins off d = (pad : ℕ) × (pad < 8) × (read_data hbins off ≡ ok (d ++ replicate pad 0))

pub alloc-Holds :
    (d b rest : Bytes)
    → length b + align_up8_int (4 + length d) < 2 ^ 31
    → Holds ((alloc d b).0 ++ rest) (alloc d b).1 d
alloc-Holds d b rest fits =
    let (pad, small, here, read) = read_cell-alloc d b rest fits in
    (pad, small, rw (read_data, read) refl)

-- The steps of `resolveValueData` on the data of one cell.
resolve_cell :
    (hbins cell : Bytes) (size off : ℕ) (contents : Bytes)
    → size < 2 ^ 31
    → size ≢ 0
    → read_data hbins off ≡ ok cell
    → is_big size cell ≡ false
    → size ≤ length cell
    → take size cell ≡ contents
    → resolve_value_data hbins size off ≡ ok contents
unfolding resolve_value_data
resolve_cell hbins cell size off contents small some read plain long first =
    let flag : leb (2 ^ 31) size ≡ false = ground arith in
    let not_empty : (size == 0) ≡ false = ground arith in
    let enough : ltb (length cell) size ≡ false = ground arith in
    rw (flag, not_empty, read, plain, enough, first) refl

at_least : (n : ℕ) → n ≤ 16344 → ltb 16344 n ≡ false
at_least n h = ground arith

pub inlinable-zero : (n : ℕ) → is_inlinable_data_size n ≡ false → n ≢ 0
unfolding is_inlinable_data_size
inlinable-zero n h e = ground arith

pub not_zero : (n : ℕ) → n ≢ 0 → (n == 0) ≡ false
not_zero n h = ground arith

at_most : (n : ℕ) → n ≤ 16344 → leb n 16344 ≡ true
at_most n h = ground arith

is_big-small : (n : ℕ) (cell : Bytes) → n ≤ 16344 → is_big n cell ≡ false
unfolding is_big
is_big-small n cell h = rw (at_least n h) refl

-- Data in one cell.
pub resolve-one_cell :
    (contents b rest : Bytes)
    → is_inlinable_data_size (length contents) ≡ false
    → length contents ≤ 16344
    → length b + align_up8_int (4 + length contents) < 2 ^ 31
    → (let s = store_data contents b in
        resolve_value_data (s.buf ++ rest) s.size s.offset ≡ ok contents)
unfolding store_data
resolve-one_cell contents b rest large fits room =
    let some = inlinable-zero (length contents) large in
    let n0 = not_zero (length contents) some in
    let n1 = at_most (length contents) fits in
    let (pad, few, read) = alloc-Holds contents b rest room in
    let cell = contents ++ replicate pad 0 in
    let long : length contents ≤ length cell =
      omega (arith, length-append contents (replicate pad 0)) in
    rw (n0, large, n1)
      (resolve_cell ((alloc contents b).0 ++ rest) cell (length contents) ((alloc contents b).1)
        contents (omega arith) some read (is_big-small (length contents) cell fits) long
        (take-append contents (replicate pad 0)))
