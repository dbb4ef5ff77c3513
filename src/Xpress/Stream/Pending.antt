-- ===== src/Xpress/Stream/Pending.antt =====
-- The bits that the writer still holds back, and the layout of its slots.
use gowim.Base.{
  ℕ, ◌+◌, ◌-◌, ◌*◌, ◌/◌, ◌%◌, ◌^◌, ◌≤◌, ◌<◌, ◌≡◌, ap, sym, ◌∙◌, [], ◌++◌, length, drop, arith,
  length-append, append-nil,
}
use gowim.Xpress.BitList.{
  BitList, AllBits, AllBits-append, num, to_bits, num-to_bits, to_bits-AllBits, length-to_bits,
  num-low, num-high, num-append, mod_product-mod, shift_low, div-mod_product, mod_product,
  num-short, pow_add, pow_pos,
}
use gowim.Xpress.BitWriter.{BitWriter, push_bits}

-- The writer's state: the pending bits are the low ones of its buffer, the two open slots lie in
-- front of the raw bytes, and the buffer ends at the cursor.
pub record Holds (w : BitWriter) (pending : BitList) : Type 0 where
  pub count : length pending ≡ w.bit_count
  pub few : w.bit_count ≤ 16
  pub low : w.bit_buf % 2 ^ w.bit_count ≡ num 0 w.bit_count pending
  pub bits : AllBits pending
  pub extent : length w.out ≡ w.next_byte
  pub slot : w.next_bits + 2 ≤ w.next_bits2
  pub slot2 : w.next_bits2 + 2 ≤ w.next_byte

-- The bits that are there once `v` is pushed, as the low bits of the buffer.
push_low :
    (buf c n v pend : ℕ)
    → c + n ≤ 32
    → v < 2 ^ n
    → buf % 2 ^ c ≡ pend
    → ((buf * 2 ^ n) % 4_294_967_296 + v) % 2 ^ (c + n) ≡ pend * 2 ^ n + v
push_low buf c n v pend h k e =
    let wide : ◌≡◌ {A = ℕ} 4_294_967_296 (2 ^ (32 - (c + n)) * 2 ^ (c + n)) =
      ap (λ (m : ℕ). 2 ^ m) (let f : 32 ≡ 32 - (c + n) + (c + n) = omega arith in f)
      ∙ pow_add (32 - (c + n)) (c + n) in
    rw wide (
      mod_product-mod (2 ^ (c + n)) (2 ^ (32 - (c + n))) (buf * 2 ^ n) v
      ∙ rw (pow_add c n) (shift_low (2 ^ c) (2 ^ n) (pow_pos c) (pow_pos n) buf v k)
      ∙ ap (λ (m : ℕ). m * 2 ^ n + v) e)

num-pushed :
    (pending : BitList) (c n v : ℕ)
    → length pending ≡ c
    → v < 2 ^ n
    → num 0 (c + n) (pending ++ to_bits n v) ≡ num 0 c pending * 2 ^ n + v
num-pushed pending c n v e h = rw (← e) (
    num-append pending (to_bits n v) n 0
    ∙ ap (num (num 0 (length pending) pending) n) (sym (append-nil (to_bits n v)))
    ∙ num-to_bits n v (num 0 (length pending) pending) [] h)

-- Pushing keeps what the writer holds, with the new bits behind.
module _ (w : BitWriter) (pending : BitList) (v n : ℕ) (h : Holds w pending) where
  pub record Pushed (w' : BitWriter) : Type 0 where
    pub count : length (pending ++ to_bits n v) ≡ w'.bit_count
    pub low : w'.bit_buf % 2 ^ w'.bit_count ≡ num 0 w'.bit_count (pending ++ to_bits n v)
    pub bits : AllBits (pending ++ to_bits n v)

  pub push_bits-Pushed : n ≤ 16 → v < 2 ^ n → Pushed (push_bits w v n)
  unfolding push_bits
  push_bits-Pushed few small = record {
    count = omega (arith, length-append pending (to_bits n v), length-to_bits n v, h.count);
    low =
        push_low w.bit_buf w.bit_count n v (num 0 w.bit_count pending) (omega (arith, h.few)) small
          h.low
        ∙ sym (num-pushed pending w.bit_count n v h.count small);
    bits = AllBits-append pending (to_bits n v) h.bits (to_bits-AllBits n v small);
  }

-- A full unit: its number, and what is left behind it.
module _ (buf c : ℕ) (bits : BitList) (many : 16 ≤ c) (ok : AllBits bits) where
  sixteen : c ≡ 16 + (c - 16)
  sixteen = omega arith

  split_power : 2 ^ c ≡ 65536 * 2 ^ (c - 16)
  split_power = ap (λ (m : ℕ). 2 ^ m) sixteen ∙ pow_add 16 (c - 16)

  pub unit_high : buf % 2 ^ c ≡ num 0 c bits → buf / 2 ^ (c - 16) % 65536 ≡ num 0 16 bits
  unit_high e =
      div-mod_product 65536 (2 ^ (c - 16)) (omega arith) (pow_pos (c - 16)) buf
      ∙ ap (λ (x : ℕ). x / 2 ^ (c - 16))
          (ap (λ (x : ℕ). buf % x) (sym split_power) ∙ e ∙ ap (λ (m : ℕ). num 0 m bits) sixteen)
      ∙ num-high 16 (c - 16) bits ok

  pub unit_low : buf % 2 ^ c ≡ num 0 c bits → buf % 2 ^ (c - 16) ≡ num 0 (c - 16) (drop 16 bits)
  unit_low e =
      sym (mod_product (2 ^ (c - 16)) 65536 buf)
      ∙ ap (λ (x : ℕ). x % 2 ^ (c - 16))
          (ap (λ (x : ℕ). buf % x) (sym split_power) ∙ e ∙ ap (λ (m : ℕ). num 0 m bits) sixteen)
      ∙ num-low 16 (c - 16) bits ok

-- The last unit, filled up with zeros.
pub last_unit :
    (buf c : ℕ) (bits : BitList)
    → c ≤ 16
    → length bits ≡ c
    → buf % 2 ^ c ≡ num 0 c bits
    → (buf * 2 ^ (16 - c)) % 4_294_967_296 % 65536 ≡ num 0 16 bits
last_unit buf c bits few len e =
    let k = 16 - c in
    let whole : c + k ≡ 16 = omega arith in
    let product : ◌≡◌ {A = ℕ} 65536 (2 ^ c * 2 ^ k) =
      ap (λ (m : ℕ). 2 ^ m) (sym whole) ∙ pow_add c k in
    let narrow : (buf * 2 ^ k) % 4_294_967_296 % 65536 ≡ (buf * 2 ^ k) % 65536 = omega arith in
    let widen : (buf * 2 ^ k) % 65536 ≡ (buf * 2 ^ k + 0) % (2 ^ c * 2 ^ k) =
      ap (λ (m : ℕ). (buf * 2 ^ k) % m) product
      ∙ ap (λ (x : ℕ). x % (2 ^ c * 2 ^ k))
          (let f : buf * 2 ^ k ≡ buf * 2 ^ k + 0 = omega arith in f) in
    narrow
    ∙ widen
    ∙ shift_low (2 ^ c) (2 ^ k) (pow_pos c) (pow_pos k) buf 0 (pow_pos k)
    ∙ ap (λ (x : ℕ). x * 2 ^ k + 0) e
    ∙ (let f : num 0 c bits * 2 ^ k + 0 ≡ num 0 c bits * 2 ^ k = omega arith in f)
    ∙ sym (num-short c k 0 bits (omega (arith, len)))
    ∙ ap (λ (m : ℕ). num 0 m bits) whole
