-- ===== src/Wim/BlobTable/Index.antt =====
-- `ByHash`: the index from hashes to positions, built lazily and extended as entries are appended.
use native.Mathlib.Nat.{add-zero, zero-add}
use gowim.Base.{
  ◌⊎◌, sym, take-append_le, length-take, take-append-drop, length-append, ℕ, suc, ◌+◌, ◌≤◌, ◌<◌,
  ◌≡◌, zero, refl, arith, List, [], ◌∷◌, ◌++◌, length, Option, none, some, get_elem?, take, drop,
  ltb, if◌then◌else◌, ap, ◌∙◌, Option-cases, inl, inr, Bool-cases,
}
use gowim.Bytes.{Bytes, eq_bytes, eq_bytes_iff}
use gowim.Wim.BlobTable.{BlobDescriptor}

-- The map `hashIndex`: an association list. `none` is the nil map.
abbrev pub Index : Type 0
Index = List (Bytes × ℕ)

pub record BlobTable : Type 0 where
  pub entries : List BlobDescriptor
  pub hash_index : Option Index
  pub indexed_n : ℕ

-- What `ByHash` does: an entry and true, nothing and false, or a panic on `t.Entries[idx]`.
pub data Answer : Type 0 where
  found : BlobDescriptor → Answer
  missing : Answer
  out_of_range : Answer

unfoldable pub lookup : Bytes → Index → Option ℕ
lookup h [] = none
lookup h ((k, i) ∷ m) = if eq_bytes h k then some i else lookup h m

-- The loop of `ensureIndexLocked` from index `i`, over the entries from there on.
unfoldable pub extend : ℕ → List BlobDescriptor → Index → Index
unfolding lookup
extend i [] m = m
extend i (e ∷ es) m =
    extend (i + 1) es (elim (lookup e.hash m) [ none ↦ (e.hash, i) ∷ m | some _ ↦ m ])

-- The map and `indexedN` with which the loop starts.
unfoldable pub reset : BlobTable → Index × ℕ
reset t = elim t.hash_index [
  | none ↦ ([], 0)
  | some m ↦ if ltb (length t.entries) t.indexed_n then ([], 0) else (m, t.indexed_n)
]

unfoldable pub ensure_index : BlobTable → BlobTable
unfolding extend reset
ensure_index t =
    let (m, start) = reset t in
    record t {
      hash_index = some (extend start (drop start t.entries) m);
      indexed_n = length t.entries;
    }

unfoldable pub answer_at : List BlobDescriptor → Option ℕ → Answer
answer_at es none = missing
answer_at es (some i) = elim (get_elem? es i) [ none ↦ out_of_range | some e ↦ found e ]

-- The table after the call is the one whose index was brought up to date.
unfoldable pub by_hash : Bytes → BlobTable → BlobTable × Answer
unfolding ensure_index answer_at
by_hash h t =
    let t' = ensure_index t in
    (t', answer_at t'.entries (elim t'.hash_index [ none ↦ none | some m ↦ lookup h m ]))

unfoldable pub by_hash_linear_scan : Bytes → List BlobDescriptor → Option BlobDescriptor
by_hash_linear_scan h [] = none
by_hash_linear_scan h (e ∷ es) = if eq_bytes e.hash h then some e else by_hash_linear_scan h es

-- The first position, counted from `i`, whose entry has the hash.
abbrev pub first_index : ℕ → Bytes → List BlobDescriptor → Option ℕ
first_index i h [] = none
first_index i h (e ∷ es) = if eq_bytes h e.hash then some i else first_index (i + 1) h es

abbrev or_else : Option ℕ → Option ℕ → Option ℕ
or_else none o = o
or_else (some i) o = some i

lookup-extend :
    (h : Bytes) (i : ℕ) (es : List BlobDescriptor) (m : Index)
    → lookup h (extend i es m) ≡ or_else (lookup h m) (first_index i h es)
unfolding extend
lookup-extend h i [] m = ground arith
lookup-extend h i (e ∷ es) m = elim (Option-cases (lookup e.hash m)) [
  | inl new ↦
      rw new (lookup-extend h (i + 1) es ((e.hash, i) ∷ m) ∙ ground (arith, eq_bytes_iff h e.hash))
  | inr (j, old) ↦ rw old (lookup-extend h (i + 1) es m ∙ ground (arith, eq_bytes_iff h e.hash))
]

or_else_assoc : (a b c : Option ℕ) → or_else (or_else a b) c ≡ or_else a (or_else b c)
or_else_assoc none b c = refl
or_else_assoc (some i) b c = refl

first_index-append :
    (i : ℕ) (h : Bytes) (xs ys : List BlobDescriptor)
    → first_index i h (xs ++ ys) ≡ or_else (first_index i h xs) (first_index (i + length xs) h ys)
first_index-append i h [] ys = ap (λ (k : ℕ). first_index k h ys) (sym (add-zero i))
first_index-append i h (e ∷ xs) ys =
    let shift : (i + 1) + length xs ≡ i + suc (length xs) = omega arith in
    ground (arith, first_index-append (i + 1) h xs ys, ap (λ (k : ℕ). first_index k h ys) shift)

-- The index holds, for each hash, its first position among the entries that it covers. Of an index
-- that covers more than the table has, since the table has shrunk, nothing is asked.
pub data WellIndexed (t : BlobTable) : Type 0 where
  unbuilt : t.hash_index ≡ none → WellIndexed t
  shrunk : (m : Index) → t.hash_index ≡ some m → length t.entries < t.indexed_n → WellIndexed t
  built :
      (m : Index)
      → t.hash_index ≡ some m
      → t.indexed_n ≤ length t.entries
      → ((h : Bytes) → lookup h m ≡ first_index 0 h (take t.indexed_n t.entries))
      → WellIndexed t

abbrev pub answer_of : Option BlobDescriptor → Answer
answer_of none = missing
answer_of (some e) = found e

-- The position found from `i` on holds what the scan returns.
scan-first_index :
    (i : ℕ) (h : Bytes) (es : List BlobDescriptor)
    → ((first_index i h es ≡ none) × (by_hash_linear_scan h es ≡ none))
      ⊎ ((k : ℕ) × (e : BlobDescriptor) × (first_index i h es ≡ some (i + k))
          × (get_elem? es k ≡ some e)
          × (by_hash_linear_scan h es ≡ some e))
unfolding by_hash_linear_scan
scan-first_index i h [] = inl (refl, refl)
scan-first_index i h (e ∷ es) = elim (Bool-cases (eq_bytes h e.hash)) [
  | inl same ↦ inr (
    0,
    e,
    rw same (ap some (sym (add-zero i))),
    refl,
    ground (arith, eq_bytes_iff h e.hash, eq_bytes_iff e.hash h),
  )
  | inr other ↦ elim (scan-first_index (i + 1) h es) [
    | inl (p, q) ↦ inl (rw other p, ground (arith, eq_bytes_iff h e.hash, eq_bytes_iff e.hash h))
    | inr (k, x, p, q, r) ↦ inr (
      suc k,
      x,
      rw other (p ∙ ap some (omega arith)),
      q,
      ground (arith, eq_bytes_iff h e.hash, eq_bytes_iff e.hash h),
    )
  ]
]

answer_at-first_index :
    (h : Bytes) (es : List BlobDescriptor)
    → answer_at es (first_index 0 h es) ≡ answer_of (by_hash_linear_scan h es)
unfolding answer_at
answer_at-first_index h es = elim (scan-first_index 0 h es) [
  | inl (p, q) ↦ rw (p, q)
  | inr (k, x, p, q, r) ↦ rw (p, zero-add, answer_at, q, r)
]

extend_covers :
    (start : ℕ) (es : List BlobDescriptor) (m : Index) (h : Bytes)
    → start ≤ length es
    → lookup h m ≡ first_index 0 h (take start es)
    → lookup h (extend start (drop start es) m) ≡ first_index 0 h es
extend_covers start es m h le agree =
    let counted : 0 + length (take start es) ≡ start = omega (arith, length-take start es) in
    let joined = first_index-append 0 h (take start es) (drop start es) in
    let tail = ap (λ (k : ℕ). first_index k h (drop start es)) counted in
    lookup-extend h start (drop start es) m
    ∙ ap (λ o. or_else o (first_index start h (drop start es))) agree
    ∙ ap (or_else (first_index 0 h (take start es))) (sym tail)
    ∙ sym joined
    ∙ ap (first_index 0 h) (take-append-drop start es)

reset-unbuilt : (t : BlobTable) → t.hash_index ≡ none → reset t ≡ ([], 0)
unfolding reset
reset-unbuilt t e = ground arith

reset-built :
    (t : BlobTable) (m : Index)
    → t.hash_index ≡ some m
    → t.indexed_n ≤ length t.entries
    → reset t ≡ (m, t.indexed_n)
unfolding reset
reset-built t m e le = ground arith

reset-shrunk :
    (t : BlobTable) (m : Index)
    → t.hash_index ≡ some m
    → length t.entries < t.indexed_n
    → reset t ≡ ([], 0)
unfolding reset
reset-shrunk t m e lt = ground arith

-- After `ensureIndexLocked` the index covers every entry, also where it was not built or had
-- entries that are gone.
covers :
    (t : BlobTable)
    → WellIndexed t
    → (m : Index) × ((ensure_index t).hash_index ≡ some m)
      × ((h : Bytes) → lookup h m ≡ first_index 0 h t.entries)
unfolding ensure_index lookup
covers t (unbuilt e) = (
  extend 0 t.entries [],
  rw (reset-unbuilt t e),
  λ h. extend_covers 0 t.entries [] h (omega arith) refl,
)
covers t (shrunk m e lt) = (
  extend 0 t.entries [],
  rw (reset-shrunk t m e lt),
  λ h. extend_covers 0 t.entries [] h (omega arith) refl,
)
covers t (built m e n agree) = (
  extend t.indexed_n (drop t.indexed_n t.entries) m,
  rw (reset-built t m e n),
  λ h. extend_covers t.indexed_n t.entries m h n (agree h),
)

take_all : (es : List BlobDescriptor) → take (length es) es ≡ es
take_all [] = refl
take_all (e ∷ es) = ap (◌∷◌ e) (take_all es)

ensure_index-WellIndexed : (t : BlobTable) → WellIndexed t → WellIndexed (ensure_index t)
unfolding ensure_index
ensure_index-WellIndexed t w =
    let (m, e, agree) = covers t w in
    built m e (omega arith) (λ h. agree h ∙ ap (first_index 0 h) (sym (take_all t.entries)))

-- `ByHash` returns what the linear scan over the entries returns, the first entry with the hash,
-- and never reads past the table, if its index is not built yet, holds the first position of each
-- hash among the entries that it covers, or, whatever it holds, covers more entries than the table
-- has, as after the table has shrunk. It leaves the entries alone, and afterwards the index covers
-- all of them and holds the first position of each hash.
pub by_hash-scan :
    (h : Bytes) (t : BlobTable)
    → WellIndexed t
    → ((by_hash h t).1 ≡ answer_of (by_hash_linear_scan h t.entries))
      × ((by_hash h t).0.entries ≡ t.entries)
      × ((by_hash h t).0.indexed_n ≡ length t.entries)
      × WellIndexed (by_hash h t).0
unfolding by_hash
by_hash-scan h t w =
    let (m, e, agree) = covers t w in
    let same : extend (reset t).1 (drop (reset t).1 t.entries) (reset t).0 ≡ m = cc e in
    let built_index = ap (λ (k : Index). answer_at t.entries (lookup h k)) same in
    (
      built_index ∙ ap (answer_at t.entries) (agree h) ∙ answer_at-first_index h t.entries,
      refl,
      refl,
      ensure_index-WellIndexed t w,
    )

-- Entries appended behind a table that has not shrunk below its index leave the index well-formed, so
-- `ByHash` stays right for them.
pub append-WellIndexed :
    (t : BlobTable) (es : List BlobDescriptor)
    → WellIndexed t
    → t.indexed_n ≤ length t.entries
    → WellIndexed (record t { entries = t.entries ++ es })
append-WellIndexed t es (unbuilt e) le = unbuilt e
append-WellIndexed t es (shrunk m e lt) le = absurd (omega arith)
append-WellIndexed t es (built m e n agree) le =
    built m e (omega (arith, length-append t.entries es))
      (λ h. agree h ∙ ap (first_index 0 h) (sym (take-append_le t.indexed_n t.entries es n)))

take-take : (i k : ℕ) (es : List BlobDescriptor) → i ≤ k → take i (take k es) ≡ take i es
take-take zero k es h = refl
take-take (suc i) zero es h = absurd (omega arith)
take-take (suc i) (suc k) [] h = refl
take-take (suc i) (suc k) (e ∷ es) h = ap (◌∷◌ e) (take-take i k es (omega arith))

-- A table cut to its first `k` entries keeps its index well-formed, so `ByHash` stays right for it.
pub take-WellIndexed :
    (t : BlobTable) (k : ℕ) → WellIndexed t → WellIndexed (record t { entries = take k t.entries })
take-WellIndexed t k (unbuilt e) = unbuilt e
take-WellIndexed t k (shrunk m e lt) = shrunk m e (omega (arith, length-take k t.entries))
take-WellIndexed t k (built m e n agree) =
    let size = length-take k t.entries in
    elim (Bool-cases (ltb (length (take k t.entries)) t.indexed_n)) [
      | inl less ↦ shrunk m e (ground arith)
      | inr more ↦
          let le : t.indexed_n ≤ length (take k t.entries) = ground arith in
          built m e le (λ h.
            agree h ∙ ap (first_index 0 h) (sym (take-take t.indexed_n k t.entries (omega arith))))
    ]
