-- ===== src/Xpress/Stream/Window.antt =====
-- The reader's 32-bit window on a sequence of bits: what loading a unit, looking at bits and removing
-- bits do to it.
use gowim.Base.{ℕ, ◌+◌, ◌-◌, ◌*◌, ◌/◌, ◌%◌, ◌^◌, ◌≤◌, ◌<◌, ◌≡◌, ap, sym, ◌∙◌, drop, arith}
use gowim.Xpress.BitList.{
  BitList, AllBits, AllBits-pad, AllBits-drop, num, num-acc, num-split, num-short, num-high, num-lt,
  num-pad, pad, length-pad, drop-pad, pow_add, pow_pos, mod_block,
}

-- The first `m` bits, left-justified.
abbrev pub window : ℕ → BitList → ℕ
window m bits = num 0 32 (pad m bits)

window_value : (m k : ℕ) (bits : BitList) → m + k ≡ 32 → window m bits ≡ num 0 m bits * 2 ^ k
window_value m k bits e =
    ap (λ (n : ℕ). num 0 n (pad m bits)) (sym e)
    ∙ num-short m k 0 (pad m bits) (omega (arith, length-pad m bits))
    ∙ ap (λ (x : ℕ). x * 2 ^ k) (num-pad m m 0 bits (omega arith))

unit_product : (a q word : ℕ) → a * (65536 * q) + word * q ≡ (a * 65536 + word) * q
unit_product a q word = grind arith

pub window-load :
    (m : ℕ) (bits : BitList)
    → m ≤ 16
    → window m bits + num 0 16 (drop m bits) * 2 ^ (16 - m) ≡ window (m + 16) bits
window-load m bits h =
    let k = 16 - m in
    let word = num 0 16 (drop m bits) in
    let power : 2 ^ (16 + k) ≡ 65536 * 2 ^ k = pow_add 16 k in
    ap (λ (x : ℕ). x + word * 2 ^ k) (window_value m (16 + k) bits (omega arith))
    ∙ ap (λ (x : ℕ). num 0 m bits * x + word * 2 ^ k) power
    ∙ unit_product (num 0 m bits) (2 ^ k) word
    ∙ ap (λ (x : ℕ). x * 2 ^ k)
        (sym (num-split m 16 0 bits ∙ num-acc 16 (num 0 m bits) (drop m bits)))
    ∙ sym (window_value (m + 16) k bits (omega arith))

pub window-peek :
    (m n : ℕ) (bits : BitList)
    → AllBits bits
    → n ≤ m
    → m ≤ 32
    → window m bits / 2 ^ (32 - n) ≡ num 0 n bits
window-peek m n bits h some few =
    ap (λ (x : ℕ). num 0 x (pad m bits) / 2 ^ (32 - n))
      (let e : 32 ≡ n + (32 - n) = omega arith in e)
    ∙ num-high n (32 - n) (pad m bits) (AllBits-pad m bits h)
    ∙ num-pad m n 0 bits some

block_product : (high low p q : ℕ) → (high * p + low) * q ≡ high * (p * q) + low * q
block_product high low p q = grind arith

product_lt : (low p q : ℕ) → 0 < q → low < p → low * q < p * q
product_lt low p q h k = grind arith

shift_out :
    (high low p q : ℕ)
    → p * q ≡ 4_294_967_296
    → 0 < q
    → low < p
    → ((high * p + low) * q) % 4_294_967_296 ≡ low * q
shift_out high low p q e some small = rw (← e) (
    rw (block_product high low p q)
      (mod_block high (low * q) (p * q) (product_lt low p q some small)))

pub window-remove :
    (m n : ℕ) (bits : BitList)
    → AllBits bits
    → n ≤ m
    → m ≤ 32
    → (window m bits * 2 ^ n) % 4_294_967_296 ≡ window (m - n) (drop n bits)
window-remove m n bits h some few =
    let k = 32 - n in
    let whole = pad m bits in
    let rest = pad (m - n) (drop n bits) in
    let cut : drop n whole ≡ rest =
      ap (λ (x : ℕ). drop n (pad x bits)) (let e : m ≡ n + (m - n) = omega arith in e)
      ∙ drop-pad n (m - n) bits in
    ap (λ (x : ℕ). (num 0 x whole * 2 ^ n) % 4_294_967_296) (let e : 32 ≡ n + k = omega arith in e)
    ∙ ap (λ (x : ℕ). (x * 2 ^ n) % 4_294_967_296)
        (num-split n k 0 whole
          ∙ num-acc k (num 0 n whole) (drop n whole)
          ∙ ap (λ (l : BitList). num 0 n whole * 2 ^ k + num 0 k l) cut)
    ∙ shift_out (num 0 n whole) (num 0 k rest) (2 ^ k) (2 ^ n)
        (sym (pow_add k n) ∙ ap (λ (x : ℕ). 2 ^ x) (let e : k + n ≡ 32 = omega arith in e))
        (pow_pos n) (num-lt k rest (AllBits-pad (m - n) (drop n bits) (AllBits-drop n bits h)))
    ∙ sym (num-short k n 0 rest (omega (arith, length-pad (m - n) (drop n bits))))
    ∙ ap (λ (x : ℕ). num 0 x rest) (let e : k + n ≡ 32 = omega arith in e)
