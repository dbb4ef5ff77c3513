-- ===== src/Wim/Chunk/Sizes.antt =====
-- The chunks cover the resource exactly.
use native.Mathlib.Nat.{div-add-mod, mod-lt, mod_self, mod-eq_of_lt, add-mul-mod_self_left}
use native.Mathlib.Decide.{dec_lt}
use gowim.Base.{ℕ, zero, suc, ◌+◌, ◌-◌, ◌*◌, ◌/◌, ◌%◌, ◌^◌, ◌≤◌, ◌<◌, ◌≡◌, some, arith, ap, ◌∙◌}
use gowim.Wim.Chunk.{num_chunks_for, chunk_uncompressed_size}

-- The sizes of the first `k` of `n` chunks, added up.
abbrev pub total_size : ℕ → ℕ → ℕ → ℕ → ℕ
total_size zero n u c = 0
total_size (suc k) n u c = total_size k n u c + chunk_uncompressed_size k n u c

module _ (u c : ℕ) (c_pos : 0 < c) (fits : u + c < 2 ^ 64) where
  full_chunk : (i n : ℕ) → n < 2 ^ 64 → suc i < n → chunk_uncompressed_size i n u c ≡ c
  unfolding chunk_uncompressed_size
  full_chunk i n hn h = ground arith

  -- What `u` leaves over `i` full chunks, by `c`.
  rem_lem : (i : ℕ) → i * c < u → u ≤ i * c + c → u % c ≡ (u - i * c) % c
  rem_lem i lo hi =
      let e : u ≡ (u - i * c) + c * i = omega arith in
      ap (λ (t : ℕ). t % c) e ∙ add-mul-mod_self_left (u - i * c) c i

  last_chunk :
      (i : ℕ)
      → suc i < 2 ^ 64
      → i * c < u
      → u ≤ i * c + c
      → i * c + chunk_uncompressed_size i (suc i) u c ≡ u
  unfolding chunk_uncompressed_size
  last_chunk i hi lo up = elim (dec_lt (u - i * c) c) [
    | yes p ↦ ground (arith, rem_lem i lo up, mod-eq_of_lt p)
    | no p ↦ ground (arith, rem_lem i lo up, mod_self c)
  ]

  total_full : (k n : ℕ) → n < 2 ^ 64 → k < n → total_size k n u c ≡ k * c
  total_full zero n hn h = omega arith
  total_full (suc k) n hn h = omega (arith, total_full k n hn (omega arith), full_chunk k n hn h)

  count_lem : (n : ℕ) → num_chunks_for u c ≡ some n → (u + (c - 1)) / c ≡ n
  unfolding num_chunks_for
  count_lem n e =
      let shift : (u + c + (2 ^ 64 - 1)) % 2 ^ 64 ≡ u + (c - 1) = omega arith in
      ground (arith, shift)

  count_bounds : (n : ℕ) → num_chunks_for u c ≡ some n → (u ≤ n * c) × (n * c < u + c)
  count_bounds n e =
      rw (← count_lem n e) (omega (arith, div-add-mod (u + (c - 1)) c, mod-lt (u + (c - 1)) c_pos))

  count_fits : (n : ℕ) → n * c < u + c → n < 2 ^ 64
  count_fits n h = grind arith

-- The chunks of a resource, `num_chunks_for` of them, add up to its uncompressed size: no byte is
-- lost or counted twice. The sum of the two sizes must fit a uint64, as `numChunksFor` adds them.
pub total_size-num_chunks_for :
    (u c n : ℕ) → 0 < c → u + c < 2 ^ 64 → num_chunks_for u c ≡ some n → total_size n n u c ≡ u
total_size-num_chunks_for u c zero h f e = omega (arith, count_bounds u c h f zero e)
total_size-num_chunks_for u c (suc i) h f e =
    let (up, lo) = count_bounds u c h f (suc i) e in
    let fits = count_fits u c h f (suc i) lo in
    omega (
      arith,
      total_full u c h f i (suc i) fits (omega arith),
      last_chunk u c h f i fits (omega arith) (omega arith),
    )

-- A chunk is never empty and never larger than the chunk size, which is not 0.
pub chunk_uncompressed_size_bounds :
    (i n u c : ℕ)
    → 0 < c
    → (0 < chunk_uncompressed_size i n u c) × (chunk_uncompressed_size i n u c ≤ c)
unfolding chunk_uncompressed_size
chunk_uncompressed_size_bounds i n u c h = ground (arith, mod-lt u h)
