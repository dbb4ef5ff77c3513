-- ===== src/Xpress/Lz77/Parse.antt =====
-- The items that `parseItems` finds give the data back.
use gowim.Base.{
  All, ℕ, zero, suc, ◌+◌, ◌-◌, ◌≤◌, ◌<◌, ◌≡◌, refl, ap, subst, ◌∙◌, [], ◌∷◌, List, length, ltb, leb,
  if◌then◌else◌, arith, inl, inr, ok, Bool, Bool-cases,
}
use gowim.Bytes.{Bytes, IsByte, byte_at, byte_at-IsByte}
use gowim.Xpress.Constants.{min_match_len, max_match_len, max_offset}
use gowim.Xpress.Items.{apply_item, apply_items, item_length, total_length}
use gowim.Xpress.Items.Agree.{Agrees, apply_item-literal, apply_item-copy_of, Agrees-eq}
use gowim.Xpress.Lz77.{
  Item, literal, copy_of, MatchFinder, parse_from, parse_items, find_match, match_limit, clip,
  insert, insert_range, longer_next, new_match_finder,
}
use gowim.Xpress.Lz77.Finder.{IsFound, find_match-IsFound, insert-input, insert_range-input}

apply_items-cons :
    (dst dst' : Bytes) (pos : ℕ) (it : Item) (items : List Item)
    → apply_item dst pos it ≡ ok dst'
    → apply_items dst pos (it ∷ items) ≡ apply_items dst' (pos + item_length it) items
unfolding apply_items
apply_items-cons dst dst' pos it items e = rw e refl

-- What the format can hold.
abbrev pub IsBounded : Item → Type 0
IsBounded (literal b) = b < 256
IsBounded (copy_of len off) =
    (min_match_len ≤ len) × (len ≤ max_match_len) × (1 ≤ off) × (off ≤ max_offset)

-- From an output that agrees so far, the items complete it.
pub record Completes (b : Bytes) (pos : ℕ) (items : List Item) : Type 0 where
  pub covers : pos + total_length items ≡ length b
  pub bounded : All IsByte b → All IsBounded items
  pub completes : (dst : Bytes) → Agrees dst b pos → apply_items dst pos items ≡ ok b

pub Completes-end : (b : Bytes) (pos : ℕ) → length b ≡ pos → Completes b pos []
unfolding apply_items total_length
Completes-end b pos h = record {
  covers = omega arith;
  bounded = λ bytes. tt;
  completes = λ dst g. ap ok (Agrees-eq dst b pos (omega arith) g);
}

pub Completes-literal :
    (b : Bytes) (pos : ℕ) (items : List Item)
    → pos < length b
    → Completes b (pos + 1) items
    → Completes b pos (literal (byte_at b pos) ∷ items)
unfolding item_length total_length
Completes-literal b pos items inside more = record {
  covers = omega (arith, more.covers);
  bounded = λ bytes. (byte_at-IsByte b pos bytes, more.bounded bytes);
  completes = λ dst g.
      let (dst', e, g') = apply_item-literal dst b pos inside g in
      apply_items-cons dst dst' pos (literal (byte_at b pos)) items e ∙ more.completes dst' g';
}

limit-le : (n i len : ℕ) → i ≤ n → len ≤ match_limit n i → i + len ≤ n
unfolding match_limit
limit-le n i len h k = ground arith

limit-le-max : (n i len : ℕ) → len ≤ match_limit n i → len ≤ max_match_len
unfolding match_limit
limit-le-max n i len k = ground arith

Completes-copy_of :
    (b : Bytes) (pos len off : ℕ) (items : List Item)
    → pos < length b
    → min_match_len ≤ len
    → IsFound b pos (match_limit (length b) pos) len off
    → Completes b (pos + len) items
    → Completes b pos (copy_of len off ∷ items)
unfolding item_length total_length
Completes-copy_of b pos len off items inside long f more = record {
  covers = omega (arith, more.covers);
  bounded = λ bytes.
      let (some_off, back, near) = f.behind (omega arith) in
      ((long, limit-le-max (length b) pos len f.within, some_off, near), more.bounded bytes);
  completes = λ dst g.
      let (some_off, back, near) = f.behind (omega arith) in
      let (dst', e, g') =
        apply_item-copy_of dst b pos len off some_off back
          (limit-le (length b) pos len (omega arith) f.within) f.same g in
      apply_items-cons dst dst' pos (copy_of len off) items e ∙ more.completes dst' g';
}

clip-eq : (n e : ℕ) → e ≤ n → clip n e ≡ e
unfolding clip
clip-eq n e h = ground arith

choose-Completes :
    (b : Bytes) (i len : ℕ) (better : Bool) (lit copied : List Item)
    → Completes b i lit
    → (min_match_len ≤ len → Completes b i copied)
    → Completes b i (if leb min_match_len len then (if better then lit else copied) else lit)
choose-Completes b i len better lit copied as_literal as_copy =
    elim (Bool-cases (leb min_match_len len)) [
      | inl long ↦ elim (Bool-cases better) [
        | inl later ↦ rw (long, later) as_literal
        | inr now ↦ rw (long, now) (as_copy (ground arith))
      ]
      | inr short ↦ rw short as_literal
    ]

carry-Completes :
    (b b' : Bytes) (pos : ℕ) (items : List Item)
    → b ≡ b'
    → Completes b pos items
    → Completes b' pos items
carry-Completes b b' pos items e more = subst (λ (x : Bytes). Completes x pos items) e more

parse_from-Completes :
    (fuel : ℕ) (m : MatchFinder) (i : ℕ)
    → length m.input ≤ i + fuel
    → i ≤ length m.input
    → Completes m.input i (parse_from fuel m i)
unfolding parse_from
parse_from-Completes zero m i enough within = Completes-end m.input i (omega arith)
parse_from-Completes (suc fuel) m i enough within = elim (Bool-cases (ltb i (length m.input))) [
  | inr done ↦ rw done (Completes-end m.input i (ground arith))
  | inl more ↦
      let n = length m.input in
      let inside : i < n = ground arith in
      let len = (find_match m i).0 in
      let off = (find_match m i).1 in
      let m1 = insert m i in
      let f = find_match-IsFound m i in
      let fits : i + len ≤ n = limit-le n i len (omega arith) f.within in
      rw more (
        choose-Completes m.input i len (longer_next m1 i len) _ _
          (Completes-literal m.input i _ inside (
            carry-Completes m1.input m.input (i + 1) _ (insert-input m i) (
              parse_from-Completes fuel m1 (i + 1)
                (omega (arith, ap (λ (b : Bytes). length b) (insert-input m i)))
                (omega (arith, ap (λ (b : Bytes). length b) (insert-input m i))))))
          (λ long. rw (clip-eq n (i + len) fits) (
            let m2 = insert_range m1 (i + len - (i + 1)) (i + 1) in
            let kept : m2.input ≡ m.input =
              insert_range-input (i + len - (i + 1)) m1 (i + 1) ∙ insert-input m i in
            Completes-copy_of m.input i len off _ inside long f (
              carry-Completes m2.input m.input (i + len) _ kept (
                parse_from-Completes fuel m2 (i + len)
                  (omega (arith, ap (λ (b : Bytes). length b) kept))
                  (omega (arith, ap (λ (b : Bytes). length b) kept)))))))
]

parse_items-Completes : (b : Bytes) → Completes b 0 (parse_items b)
unfolding parse_items new_match_finder
parse_items-Completes b =
    parse_from-Completes (length b) (new_match_finder b) 0 (omega arith) (omega arith)

pub parse_items-IsBounded : (b : Bytes) → All IsByte b → All IsBounded (parse_items b)
parse_items-IsBounded b bytes = (parse_items-Completes b).bounded bytes

pub total_length-parse_items : (b : Bytes) → total_length (parse_items b) ≡ length b
total_length-parse_items b = let c = parse_items-Completes b in omega (arith, c.covers)

-- The items that `parseItems` finds, applied by the decoder's own checks and copies to any output
-- of the data's length, meet no error and give the data back: whatever the hash chains lead to and
-- wherever the parse prefers a literal.
pub apply_items-parse_items :
    (b dst : Bytes) → length dst ≡ length b → apply_items dst 0 (parse_items b) ≡ ok b
apply_items-parse_items b dst e =
    (parse_items-Completes b).completes dst (record { same_length = e; bytes = λ k h. elim h [ ] })
