-- ===== src/Xpress/BitList.antt =====
-- Sequences of bits, highest first, as numbers: the common ground of the bit writer and the bit
-- reader of xpress/.
use native.Mathlib.Numerals.{unary_clauses}
use native.Mathlib.Nat.{mod-add-div', div-add-mod', add-mul-mod_self_right, mod-lt}
use gowim.Base.{
  ℕ, zero, suc, ◌+◌, ◌*◌, ◌/◌, ◌%◌, ◌^◌, ◌≤◌, ◌<◌, ◌≡◌, refl, ap, sym, ◌∙◌, [], ◌∷◌, ◌++◌, List,
  length, drop, arith, drop-nil,
}

-- Each bit is a 0 or a 1.
abbrev pub BitList : Type 0
BitList = List ℕ

-- The number that `acc` and the next `n` bits make; behind the end of the list the bits are 0.
pub num : (acc n : ℕ) → BitList → ℕ
num acc zero bits = acc
num acc (suc n) [] = num (2 * acc) n []
num acc (suc n) (x ∷ bits) = num (2 * acc + x) n bits

-- Exactly `n` bits.
pub pad : (n : ℕ) → BitList → BitList
pad zero bits = []
pad (suc n) [] = 0 ∷ pad n []
pad (suc n) (x ∷ bits) = x ∷ pad n bits

-- The `n` low bits of a number.
pub to_bits : (n v : ℕ) → BitList
to_bits zero v = []
to_bits (suc n) v = v / 2 ^ n ∷ to_bits n (v % 2 ^ n)

pub pow_add : (m n : ℕ) → 2 ^ (m + n) ≡ 2 ^ m * 2 ^ n
pow_add zero n = let e : 0 + n ≡ n = omega arith in rw e (omega arith)
pow_add (suc m) n =
    let e : suc m + n ≡ suc (m + n) = omega arith in
    rw e (simp unary_clauses (grind (arith, pow_add m n)))

pub pow_pos : (n : ℕ) → 0 < 2 ^ n
pow_pos zero = omega arith
pow_pos (suc n) = simp unary_clauses (omega (arith, pow_pos n))

pub num-zero : (bits : BitList) → num 0 0 bits ≡ 0
unfolding num
num-zero bits = refl

pub num-nil : (n acc : ℕ) → num acc n [] ≡ acc * 2 ^ n
unfolding num
num-nil zero acc = omega arith
num-nil (suc n) acc = num-nil n (2 * acc) ∙ simp unary_clauses (grind arith)

pub num-acc : (n acc : ℕ) (bits : BitList) → num acc n bits ≡ acc * 2 ^ n + num 0 n bits
unfolding num
num-acc zero acc bits = omega arith
num-acc (suc n) acc [] = num-acc n (2 * acc) [] ∙ simp unary_clauses (grind arith)
num-acc (suc n) acc (x ∷ bits) =
    let a = num-acc n (2 * acc + x) bits in
    let b = num-acc n x bits in
    let e : 2 * 0 + x ≡ x = omega arith in rw (e, a, b) (simp unary_clauses (grind arith))

pub num-split :
    (m n acc : ℕ) (bits : BitList) → num acc (m + n) bits ≡ num (num acc m bits) n (drop m bits)
unfolding num
num-split zero n acc bits = let e : 0 + n ≡ n = omega arith in rw e refl
num-split (suc m) n acc [] =
    let e : suc m + n ≡ suc (m + n) = omega arith in
    rw e (num-split m n (2 * acc) [] ∙ ap (num (num (2 * acc) m []) n) (drop-nil m))
num-split (suc m) n acc (x ∷ bits) =
    let e : suc m + n ≡ suc (m + n) = omega arith in rw e (num-split m n (2 * acc + x) bits)

abbrev pub AllBits : BitList → Type 0
AllBits [] = Unit {0}
AllBits (x ∷ bits) = (x < 2) × AllBits bits

pub num-lt : (n : ℕ) (bits : BitList) → AllBits bits → num 0 n bits < 2 ^ n
unfolding num
num-lt zero bits h = omega arith
num-lt (suc n) [] h = simp unary_clauses (omega (arith, num-lt n [] tt))
num-lt (suc n) (x ∷ bits) h =
    let e : 2 * 0 + x ≡ x = omega arith in
    rw (e, num-acc n x bits) (simp unary_clauses (grind (arith, num-lt n bits h.1)))

pub num-to_bits :
    (n v acc : ℕ) (rest : BitList) → v < 2 ^ n → num acc n (to_bits n v ++ rest) ≡ acc * 2 ^ n + v
unfolding num to_bits
num-to_bits zero v acc rest h = omega arith
num-to_bits (suc n) v acc rest h =
    num-to_bits n (v % 2 ^ n) (2 * acc + v / 2 ^ n) rest (grind (arith, pow_pos n))
    ∙ simp unary_clauses (grind (arith, pow_pos n))

high_bit : (n v : ℕ) → v < 2 ^ suc n → v / 2 ^ n < 2
high_bit n v h = grind (arith, pow_pos n, simp unary_clauses at h)

pub to_bits-AllBits : (n v : ℕ) → v < 2 ^ n → AllBits (to_bits n v)
unfolding to_bits
to_bits-AllBits zero v h = tt
to_bits-AllBits (suc n) v h =
    (high_bit n v h, to_bits-AllBits n (v % 2 ^ n) (grind (arith, pow_pos n)))

pub length-to_bits : (n v : ℕ) → length (to_bits n v) ≡ n
unfolding to_bits
length-to_bits zero v = refl
length-to_bits (suc n) v = ap suc (length-to_bits n (v % 2 ^ n))

pub to_bits-zero : (n v : ℕ) → n ≡ 0 → to_bits n v ≡ []
unfolding to_bits
to_bits-zero zero v e = refl
to_bits-zero (suc n) v e = absurd (omega arith)

pub num-pad : (m n acc : ℕ) (bits : BitList) → n ≤ m → num acc n (pad m bits) ≡ num acc n bits
unfolding num pad
num-pad m zero acc bits h = refl
num-pad zero (suc n) acc bits h = absurd (omega arith)
num-pad (suc m) (suc n) acc [] h =
    ap (λ (a : ℕ). num a n (pad m [])) (omega arith) ∙ num-pad m n (2 * acc) [] (omega arith)
num-pad (suc m) (suc n) acc (x ∷ bits) h = num-pad m n (2 * acc + x) bits (omega arith)

pub pad-zero : (bits : BitList) → pad 0 bits ≡ []
unfolding pad
pad-zero bits = refl

pub length-pad : (m : ℕ) (bits : BitList) → length (pad m bits) ≡ m
unfolding pad
length-pad zero bits = refl
length-pad (suc m) [] = ap suc (length-pad m [])
length-pad (suc m) (x ∷ bits) = ap suc (length-pad m bits)

pub drop-pad : (n m : ℕ) (bits : BitList) → drop n (pad (n + m) bits) ≡ pad m (drop n bits)
unfolding pad
drop-pad zero m bits = let e : 0 + m ≡ m = omega arith in rw e refl
drop-pad (suc n) m [] =
    let e : suc n + m ≡ suc (n + m) = omega arith in
    rw e (drop-pad n m [] ∙ ap (pad m) (drop-nil n))
drop-pad (suc n) m (x ∷ bits) =
    let e : suc n + m ≡ suc (n + m) = omega arith in rw e (drop-pad n m bits)

pub drop_all {ℓ} : {A : Type ℓ} (n : ℕ) (xs : List A) → length xs ≤ n → drop n xs ≡ []
drop_all zero [] h = refl
drop_all zero (x ∷ xs) h = absurd (omega arith)
drop_all (suc n) [] h = refl
drop_all (suc n) (x ∷ xs) h = drop_all n xs (omega arith)

div_block : (q r p : ℕ) → r < p → (q * p + r) / p ≡ q
div_block q r p h = grind arith

pub mod_block : (q r p : ℕ) → r < p → (q * p + r) % p ≡ r
mod_block q r p h = grind arith

pub AllBits-drop : (n : ℕ) (bits : BitList) → AllBits bits → AllBits (drop n bits)
AllBits-drop zero bits h = h
AllBits-drop (suc n) [] h = tt
AllBits-drop (suc n) (x ∷ bits) h = AllBits-drop n bits h.1

-- The first `n` of `n + k` bits, and the others.
pub num-high : (n k : ℕ) (bits : BitList) → AllBits bits → num 0 (n + k) bits / 2 ^ k ≡ num 0 n bits
num-high n k bits h =
    rw (num-split n k 0 bits, num-acc k (num 0 n bits) (drop n bits))
      (div_block (num 0 n bits) (num 0 k (drop n bits)) (2 ^ k)
        (num-lt k (drop n bits) (AllBits-drop n bits h)))

pub num-low :
    (n k : ℕ) (bits : BitList) → AllBits bits → num 0 (n + k) bits % 2 ^ k ≡ num 0 k (drop n bits)
num-low n k bits h =
    rw (num-split n k 0 bits, num-acc k (num 0 n bits) (drop n bits))
      (mod_block (num 0 n bits) (num 0 k (drop n bits)) (2 ^ k)
        (num-lt k (drop n bits) (AllBits-drop n bits h)))

pub num-short :
    (n k acc : ℕ) (bits : BitList) → length bits ≤ n → num acc (n + k) bits ≡ num acc n bits * 2 ^ k
num-short n k acc bits h =
    num-split n k acc bits
    ∙ ap (num (num acc n bits) k) (drop_all n bits h)
    ∙ num-nil k (num acc n bits)

-- The bits of two lists, one behind the other.
pub num-append :
    (xs ys : BitList) (n acc : ℕ)
    → num acc (length xs + n) (xs ++ ys) ≡ num (num acc (length xs) xs) n ys
unfolding num
num-append [] ys n acc = let e : 0 + n ≡ n = omega arith in rw e refl
num-append (x ∷ xs) ys n acc =
    let e : suc (length xs) + n ≡ suc (length xs + n) = omega arith in
    rw e (num-append xs ys n (2 * acc + x))

pub num-append_long :
    (n acc : ℕ) (xs ys : BitList) → n ≤ length xs → num acc n (xs ++ ys) ≡ num acc n xs
unfolding num
num-append_long zero acc xs ys h = refl
num-append_long (suc n) acc [] ys h = absurd (omega arith)
num-append_long (suc n) acc (x ∷ xs) ys h = num-append_long n (2 * acc + x) xs ys (omega arith)

pub drop-append_long :
    (n : ℕ) (xs ys : BitList) → n ≤ length xs → drop n (xs ++ ys) ≡ drop n xs ++ ys
drop-append_long zero xs ys h = refl
drop-append_long (suc n) [] ys h = absurd (omega arith)
drop-append_long (suc n) (x ∷ xs) ys h = drop-append_long n xs ys (omega arith)

-- Division with remainder by a product.
quotient_lt : (p q r : ℕ) → r < p * q → 0 < q → r / q < p
quotient_lt p q r h hq = grind (arith, div-add-mod' r q)

product_pos : (p q : ℕ) → 0 < p → 0 < q → 0 < p * q
product_pos p q h k = grind arith

regroup : (x k q p r : ℕ) → r + k * (q * p) ≡ x → r + k * q * p ≡ x
regroup x k q p r e = grind arith

distribute : (r k p q v : ℕ) → (r + k * p) * q + v ≡ k * (p * q) + (r * q + v)
distribute r k p q v = grind arith

module _ (p q : ℕ) where
  pub mod_product-mod : (x v : ℕ) → (x % (q * p) + v) % p ≡ (x + v) % p
  mod_product-mod x v =
      let k = x / (q * p) in
      let r = x % (q * p) in
      let e : x + v ≡ r + v + k * q * p =
        omega (arith, regroup x k q p r (mod-add-div' x (q * p))) in
      rw e (sym (add-mul-mod_self_right (r + v) (k * q) p))

  module _ (hp : 0 < p) (hq : 0 < q) where
    pub shift_low : (b v : ℕ) → v < q → (b * q + v) % (p * q) ≡ b % p * q + v
    shift_low b v h =
        let k = b / p in
        let r = b % p in
        let small : r * q + v < p * q = grind (arith, mod-lt b hp) in
        let e : b * q + v ≡ k * (p * q) + (r * q + v) =
          ap (λ (x : ℕ). x * q + v) (sym (mod-add-div' b p)) ∙ distribute r k p q v in
        rw e (mod_block k (r * q + v) (p * q) small)

    pub div-mod_product : (b : ℕ) → b / q % p ≡ b % (p * q) / q
    div-mod_product b =
        let k = b / (p * q) in
        let r = b % (p * q) in
        let small : r / q < p = quotient_lt p q r (mod-lt b (product_pos p q hp hq)) hq in
        let e : b ≡ (k * p + r / q) * q + r % q =
          grind (arith, mod-add-div' b (p * q), mod-add-div' r q) in
        let f : b / q ≡ k * p + r / q =
          ap (λ (x : ℕ). x / q) e ∙ div_block (k * p + r / q) (r % q) q (mod-lt r hq) in
        rw f (mod_block k (r / q) p small)

  pub mod_product : (b : ℕ) → b % (q * p) % p ≡ b % p
  mod_product b =
      let e : b % (q * p) ≡ b % (q * p) + 0 = omega arith in
      let f : b ≡ b + 0 = omega arith in
      ap (λ (x : ℕ). x % p) e ∙ mod_product-mod b 0 ∙ ap (λ (x : ℕ). x % p) (sym f)

pub AllBits-pad : (m : ℕ) (bits : BitList) → AllBits bits → AllBits (pad m bits)
unfolding pad
AllBits-pad zero bits h = tt
AllBits-pad (suc m) [] h = (omega arith, AllBits-pad m [] tt)
AllBits-pad (suc m) (x ∷ bits) h = (h.0, AllBits-pad m bits h.1)

pub AllBits-append : (xs ys : BitList) → AllBits xs → AllBits ys → AllBits (xs ++ ys)
AllBits-append [] ys h k = k
AllBits-append (x ∷ xs) ys h k = (h.0, AllBits-append xs ys h.1 k)

-- Bits that are read right behind they were written give the number.
pub num-exact : (n v : ℕ) (future : BitList) → v < 2 ^ n → num 0 n (to_bits n v ++ future) ≡ v
num-exact n v future h = num-to_bits n v 0 future h ∙ omega arith
