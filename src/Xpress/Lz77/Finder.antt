-- ===== src/Xpress/Lz77/Finder.antt =====
-- What the match finder reports is a match, whatever the hash chains hold.
use gowim.Base.{
  ℕ, zero, suc, ◌+◌, ◌-◌, ◌≤◌, ◌<◌, ◌≡◌, refl, ap, sym, ◌∙◌, Option, none, some, length, ltb, leb,
  if◌then◌else◌, ◌≢◌, ◌==◌, arith, inl, inr, true, false, Bool-cases,
}
use gowim.Bytes.{Bytes, byte_at}
use gowim.Xpress.Constants.{min_offset, max_offset, min_match_len}
use gowim.Xpress.Lz77.{
  MatchFinder, match_length, search_chain, match_limit, at_least_min, find_match, insert,
  insert_range, hash_at, max_search_depth,
}

-- The `n` bytes at `src` and at `dst` are the same.
abbrev pub SameBytes : Bytes → ℕ → ℕ → ℕ → Type 0
SameBytes b src dst n = (k : ℕ) → k < n → byte_at b (src + k) ≡ byte_at b (dst + k)

shifted : (b : Bytes) (i k k' : ℕ) → k ≡ suc k' → byte_at b (i + k) ≡ byte_at b (i + 1 + k')
shifted b i k k' e = ap (byte_at b) (omega arith)

at_zero : (b : Bytes) (i k : ℕ) → k ≡ 0 → byte_at b (i + k) ≡ byte_at b i
at_zero b i k e = ap (byte_at b) (omega arith)

SameBytes-suc :
    (b : Bytes) (src dst n : ℕ)
    → byte_at b src ≡ byte_at b dst
    → SameBytes b (src + 1) (dst + 1) n
    → SameBytes b src dst (suc n)
SameBytes-suc b src dst n first more zero h =
    at_zero b src 0 refl ∙ first ∙ sym (at_zero b dst 0 refl)
SameBytes-suc b src dst n first more (suc k) h =
    shifted b src (suc k) k refl ∙ more k (omega arith) ∙ sym (shifted b dst (suc k) k refl)

test-eq : (x y : ℕ) → (x == y) ≡ true → x ≡ y
test-eq x y h = ground arith

pub match_length-SameBytes :
    (limit : ℕ) (b : Bytes) (src dst : ℕ) → SameBytes b src dst (match_length b src dst limit)
unfolding match_length
match_length-SameBytes zero b src dst = λ k h. elim h [ ]
match_length-SameBytes (suc limit) b src dst = elim (Bool-cases (byte_at b src == byte_at b dst)) [
  | inl agree ↦ rw agree (
      SameBytes-suc b src dst (match_length b (src + 1) (dst + 1) limit)
        (test-eq (byte_at b src) (byte_at b dst) agree)
        (match_length-SameBytes limit b (src + 1) (dst + 1)))
  | inr differ ↦ rw differ (λ k h. elim h [ ])
]

pub match_length-le : (limit : ℕ) (b : Bytes) (src dst : ℕ) → match_length b src dst limit ≤ limit
unfolding match_length
match_length-le zero b src dst = omega arith
match_length-le (suc limit) b src dst = ground (arith, match_length-le limit b (src + 1) (dst + 1))

-- The match ends at the limit or at the first byte that differs.
pub match_length_maximal :
    (limit : ℕ) (b : Bytes) (src dst : ℕ)
    → match_length b src dst limit < limit
    → byte_at b (src + match_length b src dst limit)
      ≢ byte_at b (dst + match_length b src dst limit)
unfolding match_length
match_length_maximal zero b src dst = λ h. absurd (omega arith)
match_length_maximal (suc limit) b src dst = elim (Bool-cases (byte_at b src == byte_at b dst)) [
  | inl agree ↦ rw agree (λ h e. match_length_maximal limit b (src + 1) (dst + 1) (omega arith) (
      sym (shifted b src (suc (match_length b (src + 1) (dst + 1) limit)) _ refl)
      ∙ e
      ∙ shifted b dst (suc (match_length b (src + 1) (dst + 1) limit)) _ refl))
  | inr differ ↦ rw differ (λ h e. ground arith)
]

-- A reported pair: nothing, or a match that lies behind the position and within the limit.
pub record IsFound (b : Bytes) (i limit : ℕ) (len off : ℕ) : Type 0 where
  pub within : len ≤ limit
  pub behind : 0 < len → (min_offset ≤ off) × (off ≤ i) × (off ≤ max_offset)
  pub same : SameBytes b (i - off) i len

none-IsFound : (b : Bytes) (i limit : ℕ) → IsFound b i limit 0 0
none-IsFound b i limit = record {
  within = omega arith;
  behind = λ h. absurd (omega arith);
  same = λ k h. elim h [ ];
}

in_reach : (i c : ℕ) → ltb (i - c) 1 ≡ false → i - (i - c) ≡ c
in_reach i c h = ground arith

candidate-IsFound :
    (b : Bytes) (i limit c : ℕ)
    → ltb max_offset (i - c) ≡ false
    → ltb (i - c) min_offset ≡ false
    → IsFound b i limit (match_length b c i limit) (i - c)
candidate-IsFound b i limit c far near = record {
  within = match_length-le limit b c i;
  behind = λ h. (ground arith, omega arith, ground arith);
  same = rw (in_reach i c near) (match_length-SameBytes limit b c i);
}

abbrev Found : Bytes → ℕ → ℕ → ℕ × ℕ → Type 0
Found b i limit found = IsFound b i limit found.0 found.1

better-IsFound :
    (b : Bytes) (i limit len l off : ℕ) (skipped longer : ℕ × ℕ)
    → Found b i limit (l, off)
    → Found b i limit longer
    → Found b i limit skipped
    → Found b i limit (if ltb len l then (if leb limit l then (l, off) else longer) else skipped)
better-IsFound b i limit len l off skipped longer g more less = elim (Bool-cases (ltb len l)) [
  | inl better ↦ elim (Bool-cases (leb limit l)) [
    | inl full ↦ rw (better, full) g
    | inr short ↦ rw (better, short) more
  ]
  | inr worse ↦ rw worse less
]

pub search_chain-IsFound :
    (m : MatchFinder) (i limit depth : ℕ) (cand : Option ℕ) (len off : ℕ)
    → IsFound m.input i limit len off
    → Found m.input i limit (search_chain m i limit depth cand len off)
unfolding search_chain
search_chain-IsFound m i limit zero cand len off f = f
search_chain-IsFound m i limit (suc depth) none len off f = f
search_chain-IsFound m i limit (suc depth) (some c) len off f =
    let less = search_chain-IsFound m i limit depth (m.prev c) len off f in
    elim (Bool-cases (ltb max_offset (i - c))) [
      | inl far ↦ rw far f
      | inr reach ↦ elim (Bool-cases (ltb (i - c) min_offset)) [
        | inl same ↦ rw (reach, same) less
        | inr apart ↦
            let g = candidate-IsFound m.input i limit c reach apart in
            rw (reach, apart)
              (better-IsFound m.input i limit len (match_length m.input c i limit) (i - c) _ _ g
                (search_chain-IsFound m i limit depth (m.prev c) _ (i - c) g) less)
      ]
    ]

at_least_min-IsFound :
    (b : Bytes) (i limit : ℕ) (found : ℕ × ℕ)
    → Found b i limit found
    → Found b i limit (at_least_min found)
unfolding at_least_min
at_least_min-IsFound b i limit (len, off) f = elim (Bool-cases (ltb len min_match_len)) [
  | inl short ↦ rw short (none-IsFound b i limit)
  | inr long ↦ rw long f
]

-- Whatever the hash chains hold, what `findMatch` reports is a match: of bytes that are the same,
-- behind the position by at most `maxOffset`, and no longer than the limit.
pub find_match-IsFound :
    (m : MatchFinder) (i : ℕ) → Found m.input i (match_limit (length m.input) i) (find_match m i)
unfolding find_match
find_match-IsFound m i = elim (Bool-cases (ltb (length m.input) (i + 3))) [
  | inl short ↦ rw short (none-IsFound m.input i _)
  | inr long ↦ rw long (
      at_least_min-IsFound m.input i _ _ (
        search_chain-IsFound m i _ max_search_depth (m.head (hash_at m.input i)) 0 0
          (none-IsFound m.input i _)))
]

pub insert-input : (m : MatchFinder) (i : ℕ) → (insert m i).input ≡ m.input
unfolding insert
insert-input m i = ground arith

pub insert_range-input :
    (rounds : ℕ) (m : MatchFinder) (i : ℕ) → (insert_range m rounds i).input ≡ m.input
unfolding insert_range
insert_range-input zero m i = refl
insert_range-input (suc rounds) m i =
    insert_range-input rounds (insert m i) (i + 1) ∙ insert-input m i
