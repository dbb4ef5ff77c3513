-- ===== src/Xpress/Lengths.antt =====
-- buildLengths of xpress/huffman.go: the lengths of the codewords from a Huffman tree. The heap is the
-- list of its nodes; a pop takes the least of them by `Less`, which orders any two.
pub mod Bounds
pub mod Used
use gowim.Base.{
  ℕ, zero, suc, ◌+◌, ◌-◌, ◌%◌, Bool, Option, none, some, List, [], ◌∷◌, length, set, get_or,
  replicate, ltb, leb, ◌==◌, if◌then◌else◌,
}
use gowim.Xpress.Constants.{num_symbols, max_codeword_len}

pub data HuffNode : Type 0 where
  leaf : (weight seq sym : ℕ) → HuffNode
  branch : (weight seq : ℕ) → (left right : HuffNode) → HuffNode

unfoldable pub weight_of : HuffNode → ℕ
weight_of (leaf weight seq sym) = weight
weight_of (branch weight seq left right) = weight

unfoldable pub seq_of : HuffNode → ℕ
seq_of (leaf weight seq sym) = seq
seq_of (branch weight seq left right) = seq

-- `nodeHeap.Less`
unfoldable pub less : HuffNode → HuffNode → Bool
unfolding weight_of seq_of
less a b =
    if weight_of a == weight_of b
    then ltb (seq_of a) (seq_of b)
    else ltb (weight_of a) (weight_of b)

-- A leaf for each symbol that occurs, numbered in turn.
unfoldable pub leaves_from : (sym seq : ℕ) → List ℕ → List HuffNode
leaves_from sym seq [] = []
leaves_from sym seq (freq ∷ freqs) =
    let rest = leaves_from (sym + 1) seq freqs in
    let next = leaf freq seq sym ∷ leaves_from (sym + 1) (seq + 1) freqs in
    if ltb 0 freq then next else rest

-- `heap.Pop`: the least node and the others.
unfoldable pub pop_least : HuffNode → List HuffNode → HuffNode × List HuffNode
unfolding less
pop_least best [] = (best, [])
pop_least best (x ∷ xs) =
    let (least, others) = pop_least (if less x best then x else best) xs in
    (least, (if less x best then best else x) ∷ others)

-- `heap.Pop` again, behind the first; the parent of both is pushed.
unfoldable pub join_next : ℕ → HuffNode → List HuffNode → List HuffNode
unfolding pop_least weight_of
join_next seq a [] = a ∷ []
join_next seq a (z ∷ others) =
    let (b, rest) = pop_least z others in branch (weight_of a + weight_of b) seq a b ∷ rest

-- The two least nodes of at least two become one node.
unfoldable pub join_least : ℕ → HuffNode → HuffNode → List HuffNode → List HuffNode
unfolding pop_least join_next
join_least seq x y heap = let (a, others) = pop_least x (y ∷ heap) in join_next seq a others

-- `for h.Len() > 1`: each round leaves one node fewer.
unfoldable pub merge : (fuel seq : ℕ) → List HuffNode → Option HuffNode
unfolding join_least
merge fuel seq [] = none
merge fuel seq (x ∷ []) = some x
merge zero seq (x ∷ y ∷ heap) = none
merge (suc fuel) seq (x ∷ y ∷ heap) = merge fuel (seq + 1) (join_least seq x y heap)

-- `assign`: the depth of each leaf, and the greatest so far. A depth is cut to 8 bits.
unfoldable pub assign_depths : HuffNode → ℕ → List ℕ × ℕ → List ℕ × ℕ
assign_depths (leaf weight seq sym) depth (lens, deepest) =
    (set lens sym (depth % 256), if ltb deepest depth then depth else deepest)
assign_depths (branch weight seq left right) depth state =
    assign_depths right (depth + 1) (assign_depths left (depth + 1) state)

-- The fixed length 9 for every symbol that occurs.
unfoldable pub nine_each : List HuffNode → List ℕ → List ℕ
nine_each [] lens = lens
nine_each (leaf weight seq sym ∷ nodes) lens = nine_each nodes (set lens sym 9)
nine_each (branch weight seq left right ∷ nodes) lens = nine_each nodes lens

unfoldable pub tree_lengths : List HuffNode → HuffNode → List ℕ
unfolding assign_depths nine_each
tree_lengths nodes root =
    let (lens, deepest) = assign_depths root 0 (replicate num_symbols 0, 0) in
    if ltb max_codeword_len deepest then nine_each nodes (replicate num_symbols 0) else lens

unfoldable pub root_lengths : List HuffNode → Option HuffNode → List ℕ
unfolding tree_lengths
root_lengths nodes none = replicate num_symbols 0
root_lengths nodes (some root) = tree_lengths nodes root

unfoldable pub node_lengths : List HuffNode → List ℕ
unfolding root_lengths merge
node_lengths [] = replicate num_symbols 0
node_lengths (leaf weight seq sym ∷ []) = set (replicate num_symbols 0) sym 1
node_lengths (branch weight seq left right ∷ []) = replicate num_symbols 0
node_lengths (x ∷ y ∷ nodes) =
    let all = x ∷ y ∷ nodes in root_lengths all (merge (length all) (length all) all)

unfoldable pub build_lengths : List ℕ → List ℕ
unfolding leaves_from node_lengths
build_lengths freqs = node_lengths (leaves_from 0 0 freqs)
