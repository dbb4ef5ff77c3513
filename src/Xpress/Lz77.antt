-- ===== src/Xpress/Lz77.antt =====
-- xpress/lz77.go: the hash-chain match finder and the lazy parse. The tables `head` and `prev` are
-- functions of the index; the -1 that marks the end of a chain is `none`.
pub mod Finder
pub mod Parse
use gowim.Base.{
  ℕ, zero, suc, ◌+◌, ◌-◌, ◌*◌, ◌/◌, ◌%◌, ◌^◌, Bool, ◌&&◌, Option, none, some, List, [], ◌∷◌, length,
  ltb, leb, ◌==◌, if◌then◌else◌,
}
use gowim.Bytes.{Bytes, byte_at}
use gowim.Xpress.Constants.{min_offset, max_offset, min_match_len, max_match_len}

abbrev pub max_search_depth : ℕ
max_search_depth = 64

abbrev pub hash_bits : ℕ
hash_bits = 16

-- One parsed literal or match.
pub data Item : Type 0 where
  literal : ℕ → Item
  copy_of : (length offset : ℕ) → Item

pub record MatchFinder : Type 0 where
  pub input : Bytes
  pub head : ℕ → Option ℕ
  pub prev : ℕ → Option ℕ

-- `prev` starts as Go's zeroed array, `head` with every entry -1.
unfoldable pub new_match_finder : Bytes → MatchFinder
new_match_finder b = record { input = b; head = λ h. none; prev = λ i. some 0 }

-- The product is in uint32.
unfoldable pub hash3 : ℕ → ℕ → ℕ → ℕ
hash3 b0 b1 b2 =
    ((b0 + 256 * b1 + 65536 * b2) * 2_654_435_761) % 4_294_967_296 / 2 ^ (32 - hash_bits)

unfoldable pub hash_at : Bytes → ℕ → ℕ
unfolding hash3
hash_at b i = hash3 (byte_at b i) (byte_at b (i + 1)) (byte_at b (i + 2))

unfoldable pub put : (ℕ → Option ℕ) → ℕ → Option ℕ → ℕ → Option ℕ
put table k v j = if j == k then v else table j

unfoldable pub insert : MatchFinder → ℕ → MatchFinder
unfolding put hash_at
insert m i =
    if ltb (length m.input) (i + 3)
    then m
    else let h = hash_at m.input i in
      record m { prev = put m.prev i (m.head h); head = put m.head h (some i) }

-- How many bytes at `src` and `dst` agree; the argument in front is the count still allowed.
unfoldable pub match_length : Bytes → ℕ → ℕ → ℕ → ℕ
match_length b src dst zero = 0
match_length b src dst (suc limit) =
    let rest = match_length b (src + 1) (dst + 1) limit in
    if byte_at b src == byte_at b dst then suc rest else 0

-- The loop over one chain, with the number of candidates still to look at, the best length and the
-- best offset. An offset that is not positive stops at 0 here, which is below `min_offset` too.
unfoldable pub search_chain : MatchFinder → (i limit depth : ℕ) → Option ℕ → ℕ → ℕ → ℕ × ℕ
unfolding match_length
search_chain m i limit zero cand best_len best_off = (best_len, best_off)
search_chain m i limit (suc depth) none best_len best_off = (best_len, best_off)
search_chain m i limit (suc depth) (some c) best_len best_off =
    let off = i - c in
    let l = match_length m.input c i limit in
    let skipped = search_chain m i limit depth (m.prev c) best_len best_off in
    let longer = search_chain m i limit depth (m.prev c) l off in
    if ltb max_offset off
    then (best_len, best_off)
    else if ltb off min_offset
    then skipped
    else if ltb best_len l
    then (if leb limit l then (l, off) else longer)
    else skipped

unfoldable pub match_limit : ℕ → ℕ → ℕ
match_limit n i = if ltb max_match_len (n - i) then max_match_len else n - i

-- A match shorter than `min_match_len` is none.
unfoldable pub at_least_min : ℕ × ℕ → ℕ × ℕ
at_least_min (len, off) = if ltb len min_match_len then (0, 0) else (len, off)

unfoldable pub find_match : MatchFinder → ℕ → ℕ × ℕ
unfolding match_limit at_least_min search_chain hash_at
find_match m i =
    if ltb (length m.input) (i + 3)
    then (0, 0)
    else at_least_min (
        search_chain m i (match_limit (length m.input) i) max_search_depth
          (m.head (hash_at m.input i)) 0 0)

-- `for k := from; k < end; k++ { mf.insert(k) }`, by the rounds left.
unfoldable pub insert_range : MatchFinder → (rounds from : ℕ) → MatchFinder
unfolding insert
insert_range m zero from = m
insert_range m (suc rounds) from = insert_range (insert m from) rounds (from + 1)

-- Whether a literal is better, since a longer match starts one byte later.
unfoldable pub longer_next : MatchFinder → (i len : ℕ) → Bool
unfolding find_match
longer_next m i len = ltb (i + 1) (length m.input) && ltb len (find_match m (i + 1)).0

unfoldable pub clip : ℕ → ℕ → ℕ
clip n e = if ltb n e then n else e

-- The loop of `parseItems` from position `i`; each round moves on by a byte at least, so the length
-- of the input is fuel enough.
unfoldable pub parse_from : (fuel : ℕ) → MatchFinder → ℕ → List Item
unfolding find_match insert longer_next clip insert_range
parse_from zero m i = []
parse_from (suc fuel) m i =
    let len = (find_match m i).0 in
    let off = (find_match m i).1 in
    let n = length m.input in
    let b = byte_at m.input i in
    let end = clip n (i + len) in
    let lit = literal b ∷ parse_from fuel (insert m i) (i + 1) in
    let copied =
      copy_of len off ∷ parse_from fuel (insert_range (insert m i) (end - (i + 1)) (i + 1)) end in
    if ltb i n
    then (if leb min_match_len len
        then (if longer_next (insert m i) i len then lit else copied)
        else lit)
    else []

unfoldable pub parse_items : Bytes → List Item
unfolding parse_from new_match_finder
parse_items b = parse_from (length b) (new_match_finder b) 0
