-- ===== src/Xpress/Lengths/Used.antt =====
-- Every symbol that occurs gets a codeword from `buildLengths`.
use gowim.Base.{
  ℕ, zero, suc, ◌+◌, ◌%◌, ◌≤◌, ◌<◌, ◌≡◌, refl, ap, sym, subst, Option, some, List, [], ◌∷◌, length,
  length-replicate, set, get_or, replicate, ltb, if◌then◌else◌, arith, true, false, Bool-cases, inl,
  inr, ◌⊎◌,
}
use gowim.Xpress.Copy.Bulk.{length-set}
use gowim.Xpress.Lengths.{
  HuffNode, leaf, branch, weight_of, less, pop_least, join_next, assign_depths, nine_each,
  tree_lengths, root_lengths, node_lengths, build_lengths, leaves_from, merge,
}
use gowim.Xpress.Lengths.Bounds.{length-assign_depths, deepest-ge}

-- The symbol stands at a leaf of the tree, of a tree of the heap, or of a leaf of the heap.
abbrev InTree : ℕ → HuffNode → Type 0
InTree s (leaf weight seq symbol) = s ≡ symbol
InTree s (branch weight seq left right) = InTree s left ⊎ InTree s right

abbrev InHeap : ℕ → List HuffNode → Type 0
InHeap s [] = ⊥
InHeap s (t ∷ heap) = InTree s t ⊎ InHeap s heap

abbrev LeafIn : ℕ → List HuffNode → Type 0
LeafIn s [] = ⊥
LeafIn s (leaf weight seq symbol ∷ heap) = (s ≡ symbol) ⊎ LeafIn s heap
LeafIn s (branch weight seq left right ∷ heap) = LeafIn s heap

LeafIn-InHeap : (s : ℕ) (heap : List HuffNode) → LeafIn s heap → InHeap s heap
LeafIn-InHeap s [] h = elim h [ ]
LeafIn-InHeap s (leaf weight seq symbol ∷ heap) (inl e) = inl e
LeafIn-InHeap s (leaf weight seq symbol ∷ heap) (inr h) = inr (LeafIn-InHeap s heap h)
LeafIn-InHeap s (branch weight seq left right ∷ heap) h = inr (LeafIn-InHeap s heap h)

leaves_from-LeafIn :
    (freqs : List ℕ) (symbol seq i k : ℕ)
    → k ≡ symbol + i
    → 1 ≤ get_or freqs i 0
    → LeafIn k (leaves_from symbol seq freqs)
unfolding leaves_from
leaves_from-LeafIn [] symbol seq i k e h = absurd (omega arith)
leaves_from-LeafIn (freq ∷ freqs) symbol seq zero k e h =
    let used : ltb 0 freq ≡ true = ground arith in rw used (inl (omega arith))
leaves_from-LeafIn (freq ∷ freqs) symbol seq (suc i) k e h = elim (Bool-cases (ltb 0 freq)) [
  | inl used ↦ rw used (inr (leaves_from-LeafIn freqs (symbol + 1) (seq + 1) i k (omega arith) h))
  | inr unused ↦ rw unused (leaves_from-LeafIn freqs (symbol + 1) seq i k (omega arith) h)
]

-- A pop loses no node.
pop_least-InHeap :
    (s : ℕ) (xs : List HuffNode) (best : HuffNode)
    → InHeap s (best ∷ xs)
    → InTree s (pop_least best xs).0 ⊎ InHeap s (pop_least best xs).1
unfolding pop_least
pop_least-InHeap s [] best h = h
pop_least-InHeap s (x ∷ xs) best h = elim (Bool-cases (less x best)) [
  | inl first ↦ rw first (sort_out h (pop_least-InHeap s xs x))
  | inr later ↦ rw later (sort_out2 h (pop_least-InHeap s xs best))
]
  where
    sort_out :
        InHeap s (best ∷ x ∷ xs)
        → (InHeap s (x ∷ xs) → InTree s (pop_least x xs).0 ⊎ InHeap s (pop_least x xs).1)
        → InTree s (pop_least x xs).0 ⊎ (InTree s best ⊎ InHeap s (pop_least x xs).1)
    sort_out (inl a) rest = inr (inl a)
    sort_out (inr a) rest = elim (rest a) [ inl b ↦ inl b | inr b ↦ inr (inr b) ]

    sort_out2 :
        InHeap s (best ∷ x ∷ xs)
        → (InHeap s (best ∷ xs) → InTree s (pop_least best xs).0 ⊎ InHeap s (pop_least best xs).1)
        → InTree s (pop_least best xs).0 ⊎ (InTree s x ⊎ InHeap s (pop_least best xs).1)
    sort_out2 (inl a) rest = elim (rest (inl a)) [ inl b ↦ inl b | inr b ↦ inr (inr b) ]
    sort_out2 (inr (inl a)) rest = inr (inl a)
    sort_out2 (inr (inr a)) rest = elim (rest (inr a)) [ inl b ↦ inl b | inr b ↦ inr (inr b) ]

length-pop_least : (xs : List HuffNode) (best : HuffNode) → length (pop_least best xs).1 ≡ length xs
unfolding pop_least
length-pop_least [] best = refl
length-pop_least (x ∷ xs) best = ap suc (length-pop_least xs _)

join_next-InHeap :
    (s seq : ℕ) (a : HuffNode) (others : List HuffNode)
    → InTree s a ⊎ InHeap s others
    → InHeap s (join_next seq a others)
unfolding join_next
join_next-InHeap s seq a [] h = h
join_next-InHeap s seq a (z ∷ others) (inl h) = inl (inl h)
join_next-InHeap s seq a (z ∷ others) (inr h) = elim (pop_least-InHeap s others z h) [
  | inl b ↦ inl (inr b)
  | inr b ↦ inr b
]

-- A heap whose tree will be a branch.
abbrev IsJoined : List HuffNode → Type 0
IsJoined [] = ⊥
IsJoined (leaf weight seq symbol ∷ []) = ⊥
IsJoined (branch weight seq left right ∷ []) = Unit {0}
IsJoined (x ∷ y ∷ heap) = Unit {0}

abbrev IsBranch : HuffNode → Type 0
IsBranch (leaf weight seq symbol) = ⊥
IsBranch (branch weight seq left right) = Unit {0}

length-join_next :
    (seq : ℕ) (a : HuffNode) (others : List HuffNode)
    → 1 ≤ length others
    → length (join_next seq a others) ≡ length others
unfolding join_next
length-join_next seq a [] h = absurd (omega arith)
length-join_next seq a (z ∷ others) h = ap suc (length-pop_least others z)

IsJoined-branch :
    (weight seq : ℕ) (left right : HuffNode) (heap : List HuffNode)
    → IsJoined (branch weight seq left right ∷ heap)
IsJoined-branch weight seq left right [] = tt
IsJoined-branch weight seq left right (x ∷ heap) = tt

join_next-IsJoined :
    (seq : ℕ) (a : HuffNode) (others : List HuffNode)
    → 1 ≤ length others
    → IsJoined (join_next seq a others)
unfolding join_next
join_next-IsJoined seq a [] h = absurd (omega arith)
join_next-IsJoined seq a (z ∷ others) h =
    IsJoined-branch (weight_of a + weight_of (pop_least z others).0) seq a (pop_least z others).0
      (pop_least z others).1

-- Merging ends with one tree, which holds every symbol of the heap.
record Merged (heap : List HuffNode) (result : Option HuffNode) : Type 0 where
  root : HuffNode
  reached : result ≡ some root
  branches : IsBranch root
  holds : (s : ℕ) → InHeap s heap → InTree s root

merge-Merged :
    (fuel seq : ℕ) (heap : List HuffNode)
    → length heap ≤ suc fuel
    → IsJoined heap
    → Merged heap (merge fuel seq heap)
unfolding merge
merge-Merged fuel seq [] h j = absurd j
merge-Merged fuel seq (leaf weight n symbol ∷ []) h j = absurd j
merge-Merged fuel seq (branch weight n left right ∷ []) h j = record {
  root = branch weight n left right;
  reached = refl;
  branches = tt;
  holds = λ s p. elim p [ inl q ↦ q | inr q ↦ absurd q ];
}
merge-Merged zero seq (x ∷ y ∷ heap) h j = absurd (omega arith)
merge-Merged (suc fuel) seq (x ∷ y ∷ heap) h j =
    let a = (pop_least x (y ∷ heap)).0 in
    let others = (pop_least x (y ∷ heap)).1 in
    let size = length-pop_least (y ∷ heap) x in
    let some_others : 1 ≤ length others = omega (arith, size) in
    let m =
      merge-Merged fuel (seq + 1) (join_next seq a others)
        (omega (arith, size, length-join_next seq a others some_others))
        (join_next-IsJoined seq a others some_others) in
    record {
      root = m.root;
      reached = m.reached;
      branches = m.branches;
      holds =
          λ s p. m.holds s (join_next-InHeap s seq a others (pop_least-InHeap s (y ∷ heap) x p));
    }

pub get_or-set_kept :
    (lens : List ℕ) (i l s : ℕ) → 1 ≤ l → 1 ≤ get_or lens s 0 → 1 ≤ get_or (set lens i l) s 0
get_or-set_kept [] i l s h k = k
get_or-set_kept (x ∷ lens) zero l zero h k = h
get_or-set_kept (x ∷ lens) zero l (suc s) h k = k
get_or-set_kept (x ∷ lens) (suc i) l zero h k = k
get_or-set_kept (x ∷ lens) (suc i) l (suc s) h k = get_or-set_kept lens i l s h k

pub get_or-set_self :
    (lens : List ℕ) (i l s : ℕ) → s ≡ i → s < length lens → 1 ≤ l → 1 ≤ get_or (set lens i l) s 0
get_or-set_self [] i l s e h k = absurd (omega arith)
get_or-set_self (x ∷ lens) zero l zero e h k = k
get_or-set_self (x ∷ lens) zero l (suc s) e h k = absurd (omega arith)
get_or-set_self (x ∷ lens) (suc i) l zero e h k = absurd (omega arith)
get_or-set_self (x ∷ lens) (suc i) l (suc s) e h k =
    get_or-set_self lens i l s (omega arith) (omega arith) k

depth_whole : (d : ℕ) → d ≤ 15 → d % 256 ≡ d
depth_whole d h = omega arith

assign_depths_kept :
    (t : HuffNode) (d s : ℕ) (state : List ℕ × ℕ)
    → 1 ≤ d
    → (assign_depths t d state).1 ≤ 15
    → 1 ≤ get_or state.0 s 0
    → 1 ≤ get_or (assign_depths t d state).0 s 0
unfolding assign_depths
assign_depths_kept (leaf weight seq symbol) d s (lens, deepest) h few k =
    let whole = depth_whole d (ground arith) in rw whole (get_or-set_kept lens symbol d s h k)
assign_depths_kept (branch weight seq left right) d s state h few k =
    let state1 = assign_depths left (d + 1) state in
    let (a, b) = deepest-ge right (d + 1) state1 in
    assign_depths_kept right (d + 1) s state1 (omega arith) few
      (assign_depths_kept left (d + 1) s state (omega arith) (omega arith) k)

assign_depths_used :
    (t : HuffNode) (d s : ℕ) (state : List ℕ × ℕ)
    → 1 ≤ d
    → (assign_depths t d state).1 ≤ 15
    → s < length state.0
    → InTree s t
    → 1 ≤ get_or (assign_depths t d state).0 s 0
unfolding assign_depths
assign_depths_used (leaf weight seq symbol) d s (lens, deepest) h few k e =
    let whole = depth_whole d (ground arith) in rw whole (get_or-set_self lens symbol d s e k h)
assign_depths_used (branch weight seq left right) d s state h few k (inl p) =
    let state1 = assign_depths left (d + 1) state in
    let (a, b) = deepest-ge right (d + 1) state1 in
    assign_depths_kept right (d + 1) s state1 (omega arith) few
      (assign_depths_used left (d + 1) s state (omega arith) (omega arith) k p)
assign_depths_used (branch weight seq left right) d s state h few k (inr p) =
    let state1 = assign_depths left (d + 1) state in
    assign_depths_used right (d + 1) s state1 (omega arith) few
      (omega (arith, length-assign_depths left (d + 1) state)) p

nine_each_kept :
    (nodes : List HuffNode) (lens : List ℕ) (s : ℕ)
    → 1 ≤ get_or lens s 0
    → 1 ≤ get_or (nine_each nodes lens) s 0
unfolding nine_each
nine_each_kept [] lens s k = k
nine_each_kept (leaf weight seq symbol ∷ nodes) lens s k =
    nine_each_kept nodes (set lens symbol 9) s (get_or-set_kept lens symbol 9 s (omega arith) k)
nine_each_kept (branch weight seq left right ∷ nodes) lens s k = nine_each_kept nodes lens s k

nine_each_used :
    (nodes : List HuffNode) (lens : List ℕ) (s : ℕ)
    → s < length lens
    → LeafIn s nodes
    → 1 ≤ get_or (nine_each nodes lens) s 0
unfolding nine_each
nine_each_used [] lens s h p = absurd p
nine_each_used (leaf weight seq symbol ∷ nodes) lens s h (inl e) =
    nine_each_kept nodes (set lens symbol 9) s (get_or-set_self lens symbol 9 s e h (omega arith))
nine_each_used (leaf weight seq symbol ∷ nodes) lens s h (inr p) =
    nine_each_used nodes (set lens symbol 9) s (omega (arith, length-set lens symbol 9)) p
nine_each_used (branch weight seq left right ∷ nodes) lens s h p = nine_each_used nodes lens s h p

not_deep : (n : ℕ) → ltb 15 n ≡ false → n ≤ 15
not_deep n h = ground arith

root_used :
    (root : HuffNode) (s : ℕ) (state : List ℕ × ℕ)
    → IsBranch root
    → (assign_depths root 0 state).1 ≤ 15
    → s < length state.0
    → InTree s root
    → 1 ≤ get_or (assign_depths root 0 state).0 s 0
unfolding assign_depths
root_used (leaf weight seq symbol) s state b few h q = absurd b
root_used (branch weight seq left right) s state b few h (inl q) =
    let state1 = assign_depths left 1 state in
    let (a, c) = deepest-ge right 1 state1 in
    assign_depths_kept right 1 s state1 (omega arith) few
      (assign_depths_used left 1 s state (omega arith) (omega arith) h q)
root_used (branch weight seq left right) s state b few h (inr q) =
    let state1 = assign_depths left 1 state in
    assign_depths_used right 1 s state1 (omega arith) few
      (omega (arith, length-assign_depths left 1 state)) q

chosen_used :
    (nodes : List HuffNode) (root : HuffNode) (zeros : List ℕ) (s : ℕ)
    → s < length zeros
    → LeafIn s nodes
    → IsBranch root
    → InTree s root
    → 1
      ≤ get_or
          (if ltb 15 (assign_depths root 0 (zeros, 0)).1
            then nine_each nodes zeros
            else (assign_depths root 0 (zeros, 0)).0)
          s
          0
chosen_used nodes root zeros s h p b q =
    elim (Bool-cases (ltb 15 (assign_depths root 0 (zeros, 0)).1)) [
      | inl deep ↦ rw deep (nine_each_used nodes zeros s h p)
      | inr shallow ↦ rw shallow (root_used root s (zeros, 0) b (not_deep _ shallow) h q)
    ]

tree_lengths_used :
    (nodes : List HuffNode) (root : HuffNode) (s : ℕ)
    → s < 512
    → LeafIn s nodes
    → IsBranch root
    → InTree s root
    → 1 ≤ get_or (tree_lengths nodes root) s 0
unfolding tree_lengths
tree_lengths_used nodes root s h p b q =
    chosen_used nodes root (replicate 512 0) s (omega (arith, length-replicate {A = ℕ} 512 0)) p b q

root_lengths_used :
    (nodes : List HuffNode) (result : Option HuffNode) (s : ℕ)
    → Merged nodes result
    → s < 512
    → LeafIn s nodes
    → 1 ≤ get_or (root_lengths nodes result) s 0
root_lengths_used nodes result s m h p =
    subst (λ (x : Option HuffNode). 1 ≤ get_or (root_lengths nodes x) s 0) (sym m.reached)
      (unfold root_lengths in
        tree_lengths_used nodes m.root s h p m.branches (m.holds s (LeafIn-InHeap s nodes p)))

set_zeros : (n i s : ℕ) → s ≡ i → s < n → 1 ≤ get_or (set (replicate n 0) i 1) s 0
set_zeros n i s e h =
    get_or-set_self (replicate n 0) i 1 s e (omega (arith, length-replicate {A = ℕ} n 0))
      (omega arith)

node_lengths_used :
    (nodes : List HuffNode) (s : ℕ) → s < 512 → LeafIn s nodes → 1 ≤ get_or (node_lengths nodes) s 0
unfolding node_lengths
node_lengths_used [] s h p = absurd p
node_lengths_used (leaf weight seq symbol ∷ []) s h (inl e) = set_zeros 512 symbol s e h
node_lengths_used (leaf weight seq symbol ∷ []) s h (inr p) = absurd p
node_lengths_used (branch weight seq left right ∷ []) s h p = absurd p
node_lengths_used (x ∷ y ∷ nodes) s h p =
    let all = x ∷ y ∷ nodes in
    root_lengths_used all (merge (length all) (length all) all) s
      (merge-Merged (length all) (length all) all (omega arith) tt) h p

-- A symbol that occurs gets a codeword, whatever else occurs.
pub build_lengths_used :
    (freqs : List ℕ) (s : ℕ) → s < 512 → 1 ≤ get_or freqs s 0 → 1 ≤ get_or (build_lengths freqs) s 0
unfolding build_lengths
build_lengths_used freqs s h k =
    node_lengths_used (leaves_from 0 0 freqs) s h (leaves_from-LeafIn freqs 0 0 s s (omega arith) k)
