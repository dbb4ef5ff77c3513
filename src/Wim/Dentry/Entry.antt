-- ===== src/Wim/Dentry/Entry.antt =====
-- The entries that are written and read back, and what is written for them.
use gowim.Base.{
  ℕ, ◌+◌, ◌-◌, ◌%◌, ◌^◌, ◌<◌, ◌≤◌, ◌≡◌, refl, ap, ◌∙◌, arith, List, [], ◌∷◌, ◌++◌, length,
  replicate, ◌==◌, if◌then◌else◌, ok, length-append, length-replicate,
}
use gowim.Bytes.{Bytes}
use gowim.Wim.Tree.Entry.{EntryInfo, Stream}
use gowim.Wim.Dentry.Write.{
  name_bytes, body_bytes, entry_len, streams_len, all_stream_bytes, extra_streams_to_write,
  written_hash, append_dentry,
}
use gowim.Wim.Dentry.Fits.{FitsNumbers, FitsName, FitsStreams}
use gowim.Wim.Dentry.Fields.{laid_out}
use gowim.Wim.Dentry.Names.{padding}
use gowim.Wim.Dentry.Streams.{length-all_stream_bytes}
use gowim.Wim.Dentry.Layout.{
  entry_tail, body_bytes-laid_out, length-laid_out, behind_names, min_len-behind_name,
}

-- The entry can be written and starts its streams with the unnamed one; its extra data needs no
-- padding.
pub record FitsEntry (i : EntryInfo) : Type 0 where
  pub numbers : FitsNumbers i
  pub name_fits : FitsName i.name
  pub short_fits : FitsName i.short_name
  pub extra_fits : length i.extra < 2 ^ 63
  pub extra_aligned : length i.extra % 8 ≡ 0
  pub first : Stream
  pub more : List Stream
  pub streams_are : i.streams ≡ first ∷ more
  pub streams_fit : FitsStreams first more

pub written_hash-first : (i : EntryInfo) (f : FitsEntry i) → written_hash i.streams ≡ f.first.hash
unfolding written_hash
written_hash-first i f =
    ap written_hash f.streams_are
    ∙ ap (λ (b : Bytes). if length b == 0 then f.first.hash else replicate 20 0)
        f.streams_fit.unnamed

streams_to_write-more :
    (first : Stream) (more : List Stream)
    → first.name ≡ []
    → extra_streams_to_write (first ∷ more) ≡ more
unfolding extra_streams_to_write
streams_to_write-more first [] h = rw (h) refl
streams_to_write-more first (m ∷ ms) h = rw (h) refl

pub extra_streams_are :
    (i : EntryInfo) (f : FitsEntry i) → extra_streams_to_write i.streams ≡ f.more
extra_streams_are i f =
    ap extra_streams_to_write f.streams_are
    ∙ streams_to_write-more f.first f.more f.streams_fit.unnamed

-- The part of an entry before its extra streams.
pub body_bytes-fits :
    (i : EntryInfo) (subdir : ℕ) (f : FitsEntry i)
    → body_bytes i subdir
      ≡ laid_out i subdir f.first.hash (length f.more) (entry_tail i) (102 + length (entry_tail i))
body_bytes-fits i subdir f =
    let t = entry_tail i in
    let hash = written_hash-first i f in
    let here =
      body_bytes-laid_out i subdir (ap (length {A = ℕ}) hash ∙ f.streams_fit.first_hash)
        f.extra_aligned in
    let n = length (extra_streams_to_write i.streams) in
    here
    ∙ ap (λ (g : Bytes). laid_out i subdir g n t (102 + length t)) hash
    ∙ ap (λ (ss : List Stream). laid_out i subdir f.first.hash (length ss) t (102 + length t))
        (extra_streams_are i f)

pub length-body_bytes :
    (i : EntryInfo) (subdir : ℕ)
    → FitsEntry i
    → length (body_bytes i subdir) ≡ 102 + length (entry_tail i)
length-body_bytes i subdir f =
    let t = entry_tail i in
    ap (length {A = ℕ}) (body_bytes-fits i subdir f)
    ∙ length-laid_out i subdir f.first.hash (length f.more) t (102 + length t)

length-name_bytes-le : (name : Bytes) → FitsName name → length (name_bytes name) ≤ 65537
unfolding name_bytes
length-name_bytes-le [] f = omega arith
length-name_bytes-le (x ∷ xs) f = omega (arith, f.short, length-append xs (0 ∷ 0 ∷ []))

pub entry_len-tail :
    (i : EntryInfo) (f : FitsEntry i)
    → entry_len i ≡ 102 + length (entry_tail i) + streams_len f.more
unfolding entry_len
entry_len-tail i f =
    let names = name_bytes i.name ++ name_bytes i.short_name in
    let pad = padding (102 + length names) in
    let fixed = min_len-behind_name (length i.name) (length i.short_name) ∙ behind_names i in
    let short = length-name_bytes-le i.name f.name_fits in
    let short' = length-name_bytes-le i.short_name f.short_fits in
    rw (extra_streams_are i f, fixed)
      (omega (
        arith,
        f.extra_fits,
        f.extra_aligned,
        short,
        short',
        length-append (name_bytes i.name) (name_bytes i.short_name),
        length-append (names ++ pad) i.extra,
        length-append names pad,
        length-replicate {A = ℕ} ((8 - (102 + length names) % 8) % 8) 0,
      ))

-- What `appendDentry` appends.
abbrev pub entry_bytes : EntryInfo → ℕ → Bytes
entry_bytes i subdir = body_bytes i subdir ++ all_stream_bytes (extra_streams_to_write i.streams)

pub length-entry_bytes :
    (i : EntryInfo) (subdir : ℕ) → FitsEntry i → length (entry_bytes i subdir) ≡ entry_len i
length-entry_bytes i subdir f =
    let ss = extra_streams_to_write i.streams in
    let more = ap (λ (b : List Stream). length (all_stream_bytes b)) (extra_streams_are i f) in
    omega (
      arith,
      length-append (body_bytes i subdir) (all_stream_bytes ss),
      length-body_bytes i subdir f,
      more,
      length-all_stream_bytes f.more f.streams_fit.more_fit,
      entry_len-tail i f,
    )

pub append_dentry-fits :
    (i : EntryInfo) (subdir : ℕ) (dst : Bytes)
    → FitsEntry i
    → append_dentry i subdir dst ≡ ok (dst ++ entry_bytes i subdir)
unfolding append_dentry
append_dentry-fits i subdir dst f =
    ground (arith, f.name_fits.even, f.name_fits.short, f.short_fits.even, f.short_fits.short)
