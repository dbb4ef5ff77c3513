-- ===== src/Wim/Dentry/Streams.antt =====
-- The extra streams of an entry, read from where they were written.
use gowim.Base.{
  ℕ, suc, ◌+◌, ◌-◌, ◌%◌, ◌^◌, ◌<◌, ◌≤◌, ◌≡◌, refl, ap, ◌∙◌, sym, arith, List, [], ◌∷◌, ◌++◌, length,
  drop, replicate, ok, All, append_assoc, length-append, length-replicate, length-drop,
}
use gowim.Bytes.{
  Bytes, expand, expand_lem, slice, write_at, bytes2, bytes8, u16_at, u64_at, join2-byte,
  join8-byte, length-write_at, take-at, drop-behind,
}
use gowim.Wim.Security.{align_up8}
use gowim.Wim.Tree.Entry.{Stream}
use gowim.Wim.Dentry.{parse_streams, stream_name, behind_name}
use gowim.Wim.Dentry.Write.{name_bytes, stream_bytes, stream_len, streams_len, all_stream_bytes}
use gowim.Wim.Dentry.Fits.{FitsName, FitsStream}
use gowim.Wim.Dentry.Names.{length_written, padding, behind_name-length}

-- The entry of a stream: its fixed part with the length, and `t` behind it.
abbrev laid : Bytes → ℕ → Bytes → ℕ → Bytes
laid h nb t l =
    let f0 = write_at (replicate 38 0) 16 (expand 20 h) in
    write_at (write_at f0 36 (bytes2 nb) ++ t) 0 (bytes8 l)

abbrev stream_tail : Bytes → Bytes
stream_tail name = name_bytes name ++ padding (38 + length (name_bytes name))

stream_bytes-laid :
    (s : Stream)
    → length s.hash ≡ 20
    → stream_bytes s
      ≡ laid s.hash (length s.name) (stream_tail s.name) (38 + length (stream_tail s.name))
unfolding stream_bytes
stream_bytes-laid s h =
    let f0 = write_at (replicate 38 0) 16 s.hash in
    let fixed = write_at f0 36 (bytes2 (length s.name)) in
    let size : length fixed ≡ 38 =
      length-write_at f0 36 (bytes2 (length s.name)) ∙ length-write_at (replicate 38 0) 16 s.hash in
    length_written fixed (name_bytes s.name) 38 size
    ∙ ap
        (λ (g : Bytes).
          write_at
            (write_at (write_at (replicate 38 0) 16 g) 36 (bytes2 (length s.name))
              ++ stream_tail s.name)
            0 (bytes8 (38 + length (stream_tail s.name))))
        (sym (expand_lem 20 s.hash h))

module _ (h : Bytes) (nb : ℕ) (t : Bytes) (l : ℕ) where
  drop-laid : drop 38 (laid h nb t l) ≡ t
  drop-laid = refl

  laid-append : (r : Bytes) → laid h nb t l ++ r ≡ laid h nb (t ++ r) l
  laid-append r = refl

  laid_length : l < 2 ^ 64 → u64_at (laid h nb t l) 0 ≡ l
  laid_length f = join8-byte l f

  pub laid_name_length : nb < 2 ^ 16 → u16_at (laid h nb t l) 36 ≡ nb
  laid_name_length f = join2-byte nb f

  laid_hash : slice (laid h nb t l) 16 20 ≡ expand 20 h
  laid_hash = refl

stream_len-tail :
    (s : Stream) → length s.name ≤ 0xffff → stream_len s ≡ 38 + length (stream_tail s.name)
unfolding stream_len align_up8 behind_name
stream_len-tail s f = ground (
  arith,
  behind_name-length 0 s.name,
  length-append (name_bytes s.name) (padding (38 + length (name_bytes s.name))),
  length-replicate {A = ℕ} ((8 - (38 + length (name_bytes s.name)) % 8) % 8) 0,
)

stream_tail-aligned : (name : Bytes) → (38 + length (stream_tail name)) % 8 ≡ 0
stream_tail-aligned name = omega (
  arith,
  length-append (name_bytes name) (padding (38 + length (name_bytes name))),
  length-replicate {A = ℕ} ((8 - (38 + length (name_bytes name)) % 8) % 8) 0,
)

length-stream_tail : (x : ℕ) (xs : Bytes) → length xs + 3 ≤ length (stream_tail (x ∷ xs))
unfolding name_bytes
length-stream_tail x xs =
    let m = x ∷ (xs ++ (0 ∷ 0 ∷ [])) in
    omega (arith, length-append m (padding (38 + length m)), length-append xs (0 ∷ 0 ∷ []))

-- The name of a stream comes back from its entry.
stream_name-at :
    (p name r : Bytes) (l : ℕ)
    → FitsName name
    → u16_at p 36 ≡ length name
    → drop 38 p ≡ stream_tail name ++ r
    → l ≡ 38 + length (stream_tail name)
    → l ≤ length p
    → stream_name p l ≡ ok name
unfolding stream_name
stream_name-at p [] r l f nb at e fits = rw (stream_name, nb) refl
stream_name-at p (x ∷ xs) r l f nb at e fits =
    let name = x ∷ xs in
    let rest = padding (38 + length (name_bytes name)) in
    let split : stream_tail name ++ r ≡ name ++ (0 ∷ 0 ∷ (rest ++ r)) =
      unfold name_bytes in simp append_assoc in
    let taken = take-at p name (0 ∷ 0 ∷ (rest ++ r)) 38 (at ∙ split) in
    let long = length-stream_tail x xs in rw (stream_name, nb) (ground (arith, f.even, taken))

-- A round of `parseDirEntry`'s loop, when the entry at `off` is `l` bytes and has this name and hash.
parse_streams-round :
    (buf : Bytes) (off l n next : ℕ) (name hash : Bytes) (ss : List Stream)
    → align_up8 (u64_at (drop off buf) 0) ≡ l
    → stream_name (drop off buf) l ≡ ok name
    → slice (drop off buf) 16 20 ≡ hash
    → 38 ≤ l
    → off + l ≤ length buf
    → length buf < 2 ^ 63
    → parse_streams n buf (off + l) ≡ ok (ss, next)
    → parse_streams (suc n) buf off ≡ ok ((record { name = name; hash = hash }) ∷ ss, next)
unfolding parse_streams
parse_streams-round buf off l n next name hash ss el en eh least within small rest =
    let e1 : (off + 38) % 2 ^ 64 ≡ off + 38 = omega arith in
    let e2 : (off + l) % 2 ^ 64 ≡ off + l = omega arith in
    rw (el, e1, e2, en, eh, rest) (ground arith)

pub align_up8-multiple : (n : ℕ) → n % 8 ≡ 0 → n < 2 ^ 63 → align_up8 n ≡ n
unfolding align_up8
align_up8-multiple n h f = omega arith

-- A stream's entry at `off`: `parseDirEntry`'s loop reads it and goes on behind it.
parse_streams-step :
    (s : Stream) (ss : List Stream) (buf r : Bytes) (off next n : ℕ)
    → FitsStream s
    → drop off buf ≡ stream_bytes s ++ r
    → off + stream_len s ≤ length buf
    → length buf < 2 ^ 63
    → parse_streams n buf (off + stream_len s) ≡ ok (ss, next)
    → parse_streams (suc n) buf off ≡ ok (s ∷ ss, next)
parse_streams-step s ss buf r off next n f at within small rest =
    let nb = length s.name in
    let t = stream_tail s.name in
    let l = 38 + length t in
    let p = drop off buf in
    let el : stream_len s ≡ l = stream_len-tail s f.name_fits.short in
    let e : p ≡ laid s.hash nb (t ++ r) l =
      at ∙ ap (λ (g : Bytes). g ++ r) (stream_bytes-laid s f.hash_length) in
    let size : length p ≡ length buf - off = length-drop off buf in
    let fits : l < 2 ^ 63 = omega (arith, el) in
    let wide : l < 2 ^ 64 = omega arith in
    let here : align_up8 (u64_at p 0) ≡ stream_len s =
      ap (λ (g : Bytes). align_up8 (u64_at g 0)) e
      ∙ ap align_up8 (laid_length s.hash nb (t ++ r) l wide)
      ∙ align_up8-multiple l (stream_tail-aligned s.name) fits
      ∙ sym el in
    let named : stream_name p (stream_len s) ≡ ok s.name =
      stream_name-at p s.name r (stream_len s) f.name_fits
        (ap (λ (g : Bytes). u16_at g 36) e
          ∙ laid_name_length s.hash nb (t ++ r) l (omega (arith, f.name_fits.short)))
        (ap (λ (g : Bytes). drop 38 g) e ∙ drop-laid s.hash nb (t ++ r) l) el
        (omega (arith, size)) in
    let hashed : slice p 16 20 ≡ s.hash =
      ap (λ (g : Bytes). slice g 16 20) e
      ∙ laid_hash s.hash nb (t ++ r) l
      ∙ expand_lem 20 s.hash f.hash_length in
    parse_streams-round buf off (stream_len s) n next s.name s.hash ss here named hashed
      (omega (arith, el)) within small rest

length-laid : (h : Bytes) (nb : ℕ) (t : Bytes) (l : ℕ) → length (laid h nb t l) ≡ 38 + length t
length-laid h nb t l = omega arith

length-stream_bytes : (s : Stream) → FitsStream s → length (stream_bytes s) ≡ stream_len s
length-stream_bytes s f =
    let t = stream_tail s.name in
    ap (length {A = ℕ}) (stream_bytes-laid s f.hash_length)
    ∙ length-laid s.hash (length s.name) t (38 + length t)
    ∙ sym (stream_len-tail s f.name_fits.short)

pub length-all_stream_bytes :
    (ss : List Stream) → All FitsStream ss → length (all_stream_bytes ss) ≡ streams_len ss
unfolding all_stream_bytes streams_len
length-all_stream_bytes [] f = refl
length-all_stream_bytes (s ∷ ss) (f, fs) =
    length-append (stream_bytes s) (all_stream_bytes ss)
    ∙ omega (arith, length-stream_bytes s f, length-all_stream_bytes ss fs)

-- All of them, written one behind the other.
pub parse_streams-all_stream_bytes :
    (ss : List Stream) (buf r : Bytes) (off : ℕ)
    → All FitsStream ss
    → drop off buf ≡ all_stream_bytes ss ++ r
    → off + streams_len ss ≤ length buf
    → length buf < 2 ^ 63
    → parse_streams (length ss) buf off ≡ ok (ss, off + streams_len ss)
parse_streams-all_stream_bytes [] buf r off f at within small =
    unfold parse_streams in unfold streams_len in ap (λ (m : ℕ). ok ([], m)) (omega arith)
parse_streams-all_stream_bytes (s ∷ ss) buf r off (f, fs) at within small =
    let after = off + stream_len s in
    let split : drop off buf ≡ stream_bytes s ++ (all_stream_bytes ss ++ r) =
      at ∙ unfold all_stream_bytes in append_assoc (stream_bytes s) (all_stream_bytes ss) r in
    let next =
      drop-behind buf (stream_bytes s) (all_stream_bytes ss ++ r) off after
        (ap (λ (m : ℕ). off + m) (sym (length-stream_bytes s f))) split in
    let total : off + streams_len (s ∷ ss) ≡ after + streams_len ss =
      unfold streams_len in omega arith in
    let rest = parse_streams-all_stream_bytes ss buf r after fs next (omega arith) small in
    rw total (
      parse_streams-step s ss buf (all_stream_bytes ss ++ r) off (after + streams_len ss)
        (length ss) f split (omega arith) small rest)
