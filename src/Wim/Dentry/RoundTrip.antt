-- ===== src/Wim/Dentry/RoundTrip.antt =====
-- One entry, read from where it was written.
use gowim.Base.{
  ℕ, ◌+◌, ◌%◌, ◌^◌, ◌<◌, ◌≤◌, ◌≡◌, refl, subst, ap, ◌∙◌, sym, arith, List, [], ◌++◌, length, drop,
  some, ok, append_assoc, drop-append, length-append,
}
use gowim.Bytes.{Bytes, expand_lem, slice, u16_at, u64_at, drop-behind}
use gowim.Wim.Security.{align_up8}
use gowim.Wim.Tree.Entry.{EntryInfo, Stream}
use gowim.Wim.Dentry.{parse_streams, parse_dir_entry, with_streams, entry_at, min_len_with_names}
use gowim.Wim.Dentry.Write.{
  out_len, body_bytes, entry_len, streams_len, all_stream_bytes, extra_streams_to_write,
  append_dentry,
}
use gowim.Wim.Dentry.Fields.{
  laid_out, HasNumbers, entry_at-numbers, drop-laid_out, length_field, count_field,
  short_name_field, name_field, subdir_field, hash_field, laid_out-HasNumbers,
}
use gowim.Wim.Dentry.Streams.{parse_streams-all_stream_bytes, align_up8-multiple}
use gowim.Wim.Dentry.Layout.{
  entry_tail, laid_out-append, entry_tail-aligned, min_len-tail, tail_fields,
}
use gowim.Wim.Dentry.Entry.{
  FitsEntry, body_bytes-fits, length-body_bytes, entry_len-tail, extra_streams_are, entry_bytes,
  length-entry_bytes, append_dentry-fits,
}

-- `parseDirEntry` on the entry at `off`, when it is `l` bytes and has these fields.
parse_dir_entry-fields :
    (buf : Bytes) (off l m k n subdir next : ℕ) (ss : List Stream)
    → align_up8 (u64_at (drop off buf) 0) ≡ l
    → u16_at (drop off buf) 0x64 ≡ m
    → u16_at (drop off buf) 0x62 ≡ k
    → u16_at (drop off buf) 0x60 ≡ n
    → u64_at (drop off buf) 0x10 ≡ subdir
    → parse_streams n buf (off + l) ≡ ok (ss, next)
    → m % 2 ≡ 0
    → k % 2 ≡ 0
    → min_len_with_names m k ≤ l
    → off + l ≤ length buf
    → length buf < 2 ^ 63
    → parse_dir_entry buf off
      ≡ ok (
          some (record {
            info = with_streams (entry_at (drop off buf) l) ss;
            subdir_offset = subdir;
            next = next;
          }))
unfolding parse_dir_entry
parse_dir_entry-fields buf off l m k n subdir next ss el em ek en es rest m2 k2 least within small =
    let long : 102 ≤ min_len_with_names m k = unfold min_len_with_names in omega arith in
    let e1 : (off + 8) % 2 ^ 64 ≡ off + 8 = omega arith in
    let e2 : (off + l) % 2 ^ 64 ≡ off + l = omega arith in
    rw (el, em, ek, en, es, e1, e2, rest, m2, k2) (ground arith)

-- The entry that is read, when the numbers, the names and the hash stand in their places.
info_back :
    (i : EntryInfo) (p r : Bytes) (f : FitsEntry i)
    → HasNumbers p i
    → u16_at p 0x64 ≡ length i.name
    → u16_at p 0x62 ≡ length i.short_name
    → drop 102 p ≡ entry_tail i ++ r
    → slice p 0x40 20 ≡ f.first.hash
    → with_streams (entry_at p (102 + length (entry_tail i))) f.more ≡ i
info_back i p r f numbers em ek h hash =
    let l = 102 + length (entry_tail i) in
    let (name_is, short_is, extra_is) = tail_fields i p r h in
    let first_is : f.first ≡ record { name = []; hash = slice p 0x40 20 } =
      rw (hash)
        (ap (λ (b : Bytes). record { name = b; hash = f.first.hash }) f.streams_fit.unnamed) in
    ap (λ (j : EntryInfo). with_streams j f.more)
      (entry_at-numbers p i l (length i.name) (length i.short_name) numbers em ek)
    ∙ (rw (name_is, short_is, extra_is, sym first_is, sym f.streams_are) refl)

-- An entry at `off` is read back: it is `i`, with the offset of its children, and the next entry is
-- behind its extra streams.
pub parse_dir_entry-at :
    (i : EntryInfo) (buf r : Bytes) (off subdir : ℕ)
    → FitsEntry i
    → drop off buf
      ≡ (body_bytes i subdir ++ all_stream_bytes (extra_streams_to_write i.streams)) ++ r
    → off + entry_len i ≤ length buf
    → length buf < 2 ^ 63
    → subdir < 2 ^ 64
    → parse_dir_entry buf off
      ≡ ok (some (record { info = i; subdir_offset = subdir; next = off + entry_len i }))
parse_dir_entry-at i buf r off subdir f at within small fits =
    let t = entry_tail i in
    let l = 102 + length t in
    let m = length f.more in
    let g = f.first.hash in
    let rest = all_stream_bytes f.more ++ r in
    let p = drop off buf in
    let split : p ≡ body_bytes i subdir ++ rest =
      at
      ∙ ap (λ (ss : List Stream). (body_bytes i subdir ++ all_stream_bytes ss) ++ r)
          (extra_streams_are i f)
      ∙ append_assoc (body_bytes i subdir) (all_stream_bytes f.more) r in
    let e : p ≡ laid_out i subdir g m (t ++ rest) l =
      split
      ∙ ap (λ (b : Bytes). b ++ rest) (body_bytes-fits i subdir f)
      ∙ laid_out-append i subdir g m t l rest in
    let total = entry_len-tail i f in
    let next =
      drop-behind buf (body_bytes i subdir) rest off (off + l)
        (ap (λ (k : ℕ). off + k) (sym (length-body_bytes i subdir f))) split in
    let streams =
      parse_streams-all_stream_bytes f.more buf r (off + l) f.streams_fit.more_fit next
        (omega (arith, total)) small in
    let short : l < 2 ^ 63 = omega (arith, total) in
    let em =
      ap (λ (b : Bytes). u16_at b 0x64) e
      ∙ name_field i subdir g m (t ++ rest) l (omega (arith, f.name_fits.short)) in
    let ek =
      ap (λ (b : Bytes). u16_at b 0x62) e
      ∙ short_name_field i subdir g m (t ++ rest) l (omega (arith, f.short_fits.short)) in
    let en =
      ap (λ (b : Bytes). u16_at b 0x60) e
      ∙ count_field i subdir g m (t ++ rest) l f.streams_fit.count_fits in
    let es = ap (λ (b : Bytes). u64_at b 0x10) e ∙ subdir_field i subdir g m (t ++ rest) l fits in
    let el : align_up8 (u64_at p 0) ≡ l =
      ap (λ (b : Bytes). align_up8 (u64_at b 0)) e
      ∙ ap align_up8 (length_field i subdir g m (t ++ rest) l (omega arith))
      ∙ align_up8-multiple l (entry_tail-aligned i f.extra_aligned) short in
    let numbers =
      subst (λ (b : Bytes). HasNumbers b i) (sym e)
        (laid_out-HasNumbers i subdir g m (t ++ rest) l f.numbers) in
    let hash =
      ap (λ (b : Bytes). slice b 0x40 20) e
      ∙ hash_field i subdir g m (t ++ rest) l
      ∙ expand_lem 20 g f.streams_fit.first_hash in
    let tail : drop 102 p ≡ entry_tail i ++ rest =
      ap (λ (b : Bytes). drop 102 b) e ∙ drop-laid_out i subdir g m (t ++ rest) l in
    let info = info_back i p rest f numbers em ek tail hash in
    let read =
      parse_dir_entry-fields buf off l (length i.name) (length i.short_name) m subdir
        (off + l + streams_len f.more) f.more el em ek en es streams f.name_fits.even
        f.short_fits.even (omega (arith, min_len-tail i)) (omega (arith, total)) small in
    let end : off + l + streams_len f.more ≡ off + entry_len i = omega (arith, total) in
    read ∙ rw (info, end) refl

-- `appendDentry` succeeds on an entry that fits, `outLen` is how much it appends, and
-- `parseDirEntry` at that place gives the entry and the offset of its children back, and where
-- the entry ends, whatever follows in a buffer below 2^63 bytes.
pub parse_dir_entry-append_dentry :
    (i : EntryInfo) (dst r : Bytes) (subdir : ℕ)
    → FitsEntry i
    → length dst + entry_len i + length r < 2 ^ 63
    → subdir < 2 ^ 64
    → (out : Bytes) × (append_dentry i subdir dst ≡ ok out)
      × (length out ≡ length dst + out_len i)
      × (parse_dir_entry (out ++ r) (length dst)
          ≡ ok (some (record { info = i; subdir_offset = subdir; next = length out })))
parse_dir_entry-append_dentry i dst r subdir f small fits =
    let b = entry_bytes i subdir in
    let out = dst ++ b in
    let size = length-entry_bytes i subdir f in
    let whole = length-append dst b in
    let long = length-append out r in
    let at : drop (length dst) (out ++ r) ≡ b ++ r =
      ap (drop (length dst)) (append_assoc dst b r) ∙ drop-append dst (b ++ r) in
    let read =
      parse_dir_entry-at i (out ++ r) r (length dst) subdir f at (omega arith) (omega arith) fits in
    let end : length dst + entry_len i ≡ length out = omega arith in
    let wraps : length out ≡ length dst + out_len i = unfold out_len in omega arith in
    (
      out,
      append_dentry-fits i subdir dst f,
      wraps,
      read ∙ ap (λ (n : ℕ). ok (some (record { info = i; subdir_offset = subdir; next = n }))) end,
    )
