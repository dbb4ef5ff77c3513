-- ===== src/Wim/Image/Loop.antt =====
-- Whether the loop over the siblings ends.
use gowim.Base.{
  ℕ, zero, suc, ◌+◌, ◌-◌, ◌*◌, ◌%◌, ◌^◌, ◌<◌, ◌≤◌, ◌≡◌, ◌≢◌, refl, arith, false, List, length, some,
  none, Result-cases, Bool-cases, ◌⊎◌, inl, inr, ok, err, ltb, leb, drop,
}
use gowim.Bytes.{Bytes, u16_at, u64_at}
use gowim.Wim.Tree.Entry.{Stream}
use gowim.Wim.Security.{align_up8}
use gowim.Wim.Dentry.{
  out_of_fuel, Parsed, parse_dir_entry, parse_streams, stream_name, max_dentry_tree_depth,
}
use gowim.Wim.Image.{has_children, parse_siblings}

-- Where the entry at an offset has no children and the next one is expected at that same offset,
-- the loop over the siblings reads it for ever: it runs out however many rounds it is given.
pub parse_siblings-stuck :
    (buf : Bytes) (d off : ℕ) (p : Parsed)
    → parse_dir_entry buf off ≡ ok (some p)
    → has_children p ≡ false
    → p.next ≡ off
    → (n : ℕ) → parse_siblings n buf d off ≡ err out_of_fuel
unfolding parse_siblings
parse_siblings-stuck buf d off p here leaf back zero = refl
parse_siblings-stuck buf d off p here leaf back (suc n) =
    rw (here, leaf, back, parse_siblings-stuck buf d off p here leaf back n) refl

stream_name-fuel : (sp : Bytes) (slen : ℕ) → stream_name sp slen ≢ err out_of_fuel
unfolding stream_name
stream_name-fuel sp slen h = ground arith

parse_streams-fuel : (n : ℕ) (buf : Bytes) (off : ℕ) → parse_streams n buf off ≢ err out_of_fuel
unfolding parse_streams
parse_streams-fuel zero buf off h = ground arith
parse_streams-fuel (suc n) buf off h =
    let sp = drop off buf in
    let slen = align_up8 (u64_at sp 0) in
    let tail = parse_streams n buf ((off + slen) % 2 ^ 64) in
    ground (arith, stream_name-fuel sp slen, parse_streams-fuel n buf ((off + slen) % 2 ^ 64))

parse_dir_entry-fuel : (buf : Bytes) (off : ℕ) → parse_dir_entry buf off ≢ err out_of_fuel
unfolding parse_dir_entry
parse_dir_entry-fuel buf off h =
    let l = align_up8 (u64_at (drop off buf) 0) in
    ground (arith, parse_streams-fuel (u16_at (drop off buf) 0x60) buf ((off + l) % 2 ^ 64))

parse_streams-bound :
    (n : ℕ) (buf : Bytes) (off next : ℕ) (ss : List Stream)
    → parse_streams n buf off ≡ ok (ss, next)
    → off ≤ length buf
    → next ≤ length buf
unfolding parse_streams
parse_streams-bound zero buf off next ss h k = ground arith
parse_streams-bound (suc n) buf off next ss h k =
    let slen = align_up8 (u64_at (drop off buf) 0) in
    let end = (off + slen) % 2 ^ 64 in
    elim (Result-cases (parse_streams n buf end)) [
      | inr (e, bad) ↦ ground (arith, bad)
      | inl ((ts, last), good) ↦
          let inner = parse_streams-bound n buf end last ts good in ground (arith, good)
    ]

parse_dir_entry-bound :
    (buf : Bytes) (off : ℕ) (p : Parsed)
    → parse_dir_entry buf off ≡ ok (some p)
    → p.next ≤ length buf
unfolding parse_dir_entry
parse_dir_entry-bound buf off p h =
    let l = align_up8 (u64_at (drop off buf) 0) in
    let end = (off + l) % 2 ^ 64 in
    let count = u16_at (drop off buf) 0x60 in
    elim (Result-cases (parse_streams count buf end)) [
      | inr (e, bad) ↦ ground (arith, bad)
      | inl ((ts, last), good) ↦
          let inner = parse_streams-bound count buf end last ts good in ground (arith, good)
    ]

-- The rounds that are left at the depth `d` and the offset `off`: each descent gives a whole buffer's.
abbrev pub rounds : Bytes → ℕ → ℕ → ℕ
rounds buf d off = (max_dentry_tree_depth - d) * (length buf + 1) + (length buf - off)

rounds-below :
    (buf : Bytes) (d off off' n : ℕ)
    → d + 1 < max_dentry_tree_depth
    → rounds buf d off < suc n
    → rounds buf (d + 1) off' < n
rounds-below buf d off off' n deep k =
    let m = max_dentry_tree_depth - (d + 1) in
    let e : max_dentry_tree_depth - d ≡ m + 1 = omega arith in
    let more : (m + 1) * (length buf + 1) ≡ m * (length buf + 1) + (length buf + 1) = grind arith in
    let whole : (max_dentry_tree_depth - d) * (length buf + 1)
        ≡ m * (length buf + 1) + (length buf + 1) =
      rw e more in
    omega arith

rounds-next :
    (buf : Bytes) (d off next n : ℕ)
    → off < next
    → next ≤ length buf
    → rounds buf d off < suc n
    → rounds buf d next < n
rounds-next buf d off next n forward within k = omega arith

-- A round that runs out does so in the descent or at the next sibling.
round_out :
    (n : ℕ) (buf : Bytes) (d off : ℕ) (p : Parsed)
    → parse_dir_entry buf off ≡ ok (some p)
    → parse_siblings (suc n) buf d off ≡ err out_of_fuel
    → ((d + 1 < max_dentry_tree_depth)
        × (parse_siblings n buf (d + 1) p.subdir_offset ≡ err out_of_fuel))
      ⊎ (parse_siblings n buf d p.next ≡ err out_of_fuel)
unfolding parse_siblings
round_out n buf d off p here h = elim (Bool-cases (has_children p)) [
  | inr leaf ↦ inr (ground (arith, here, leaf))
  | inl inner ↦ elim (Bool-cases (leb max_dentry_tree_depth (d + 1))) [
    | inl deep ↦ absurd (ground (arith, here, inner, deep))
    | inr shallow ↦ elim (Result-cases (parse_siblings n buf (d + 1) p.subdir_offset)) [
      | inr (e, bad) ↦ inl (ground (arith, shallow), ground (arith, here, inner, shallow, bad))
      | inl (cs, good) ↦ inr (ground (arith, here, inner, shallow, good))
    ]
  ]
]

-- With more than `rounds` rounds, at any depth and offset of any buffer, the loop over the
-- siblings runs out only if there is an offset with an entry that expects the next one there or
-- before it.
pub parse_siblings-ends :
    (n : ℕ) (buf : Bytes) (d off : ℕ)
    → rounds buf d off < n
    → parse_siblings n buf d off ≡ err out_of_fuel
    → (at : ℕ) × ((p : Parsed) × (parse_dir_entry buf at ≡ ok (some p)) × (p.next ≤ at))
parse_siblings-ends zero buf d off k h = absurd (omega arith)
parse_siblings-ends (suc n) buf d off k h = elim (Result-cases (parse_dir_entry buf off)) [
  | inr (e, bad) ↦
      absurd (parse_dir_entry-fuel buf off (unfold parse_siblings in ground (arith, bad)))
  | inl (none, done) ↦ absurd (unfold parse_siblings in ground (arith, done))
  | inl (some p, here) ↦ elim (round_out n buf d off p here h) [
    | inl (deep, below) ↦
        parse_siblings-ends n buf (d + 1) p.subdir_offset
          (rounds-below buf d off p.subdir_offset n deep k) below
    | inr rest ↦ elim (Bool-cases (ltb off p.next)) [
      | inl forward ↦
          parse_siblings-ends n buf d p.next
            (rounds-next buf d off p.next n (ground (arith, forward))
              (parse_dir_entry-bound buf off p here) k)
            rest
      | inr back ↦ (off, (p, here, ground (arith, back)))
    ]
  ]
]
