-- ===== src/Wim/Dentry/Layout.antt =====
-- The layout of an entry: its fixed part, its names, its extra data and the padding between them.
use gowim.Base.{
  ℕ, ◌+◌, ◌-◌, ◌%◌, ◌≤◌, ◌≡◌, ap, ◌∙◌, sym, arith, [], ◌∷◌, ◌++◌, length, drop, ◌==◌, if◌then◌else◌,
  append_assoc, length-append, append-nil, length-replicate,
}
use gowim.Bytes.{Bytes, expand, expand_lem, write_at, bytes8, drop-behind}
use gowim.Wim.Tree.Entry.{EntryInfo}
use gowim.Wim.Dentry.{behind_name, align_up8_int, min_len_with_names, name_at, extra_at}
use gowim.Wim.Dentry.Write.{
  name_bytes, pad_to8, fixed_from, fixed_bytes, body_bytes, extra_streams_to_write, written_hash,
}
use gowim.Wim.Dentry.Fields.{laid_out}
use gowim.Wim.Dentry.Names.{
  name_at-name_bytes, behind_name-length, padding, align-padding, extra_at-behind,
}

-- The names and the extra data, with the padding between them.
abbrev pub entry_tail : EntryInfo → Bytes
entry_tail i =
    let names = name_bytes i.name ++ name_bytes i.short_name in
    (names ++ padding (102 + length names)) ++ i.extra

pad_to8-multiple : (b : Bytes) → length b % 8 ≡ 0 → pad_to8 b ≡ b
unfolding pad_to8
pad_to8-multiple b h = rw (h) (append-nil b)

pad_to8-append :
    (f m : Bytes) (k : ℕ) → length f ≡ k → pad_to8 (f ++ m) ≡ f ++ (m ++ padding (k + length m))
unfolding pad_to8
pad_to8-append f m k e =
    let size : length (f ++ m) ≡ k + length m = omega (arith, length-append f m) in
    rw (size) (append_assoc f m (padding (k + length m)))

length-pad_to8 : (b : Bytes) → length (pad_to8 b) % 8 ≡ 0
unfolding pad_to8
length-pad_to8 b = omega (
  arith,
  length-append b (padding (length b)),
  length-replicate {A = ℕ} ((8 - length b % 8) % 8) 0,
)

whole_written :
    (f m extra : Bytes) (k : ℕ)
    → length f ≡ k
    → length extra % 8 ≡ 0
    → (if length extra == 0 then pad_to8 (f ++ m) else pad_to8 (pad_to8 (f ++ m) ++ extra))
      ≡ f ++ ((m ++ padding (k + length m)) ++ extra)
whole_written f m [] k e h =
    pad_to8-append f m k e
    ∙ ap (λ (b : Bytes). f ++ b) (sym (append-nil (m ++ padding (k + length m))))
whole_written f m (x ∷ xs) k e h =
    let extra = x ∷ xs in
    let named = pad_to8 (f ++ m) in
    let aligned : length (named ++ extra) % 8 ≡ 0 =
      omega (arith, length-append named extra, length-pad_to8 (f ++ m)) in
    let whole =
      pad_to8-multiple (named ++ extra) aligned
      ∙ ap (λ (b : Bytes). b ++ extra) (pad_to8-append f m k e)
      ∙ append_assoc f (m ++ padding (k + length m)) extra in
    ground (arith, whole)

length-fixed_from :
    (i : EntryInfo) (subdir : ℕ) (g : Bytes) (n : ℕ)
    → length (fixed_from i subdir (expand 20 g) n) ≡ 102
unfolding fixed_from
length-fixed_from i subdir g n = ground arith

body_written :
    (f names extra : Bytes)
    → length f ≡ 102
    → length extra % 8 ≡ 0
    → (let whole =
          if length extra == 0
          then pad_to8 (f ++ names)
          else pad_to8 (pad_to8 (f ++ names) ++ extra) in
        let t = (names ++ padding (102 + length names)) ++ extra in
        write_at whole 0 (bytes8 (length whole)) ≡ write_at (f ++ t) 0 (bytes8 (102 + length t)))
body_written f names extra e h =
    let t = (names ++ padding (102 + length names)) ++ extra in
    let size : length (f ++ t) ≡ 102 + length t = omega (arith, length-append f t) in
    ap (λ (w : Bytes). write_at w 0 (bytes8 (length w))) (whole_written f names extra 102 e h)
    ∙ ap (λ (m : ℕ). write_at (f ++ t) 0 (bytes8 m)) size

pub body_bytes-laid_out :
    (i : EntryInfo) (subdir : ℕ)
    → length (written_hash i.streams) ≡ 20
    → length i.extra % 8 ≡ 0
    → body_bytes i subdir
      ≡ laid_out i subdir
          (written_hash i.streams)
          (length (extra_streams_to_write i.streams))
          (entry_tail i)
          (102 + length (entry_tail i))
unfolding body_bytes fixed_bytes
body_bytes-laid_out i subdir g h =
    let n = length (extra_streams_to_write i.streams) in
    let same = expand_lem 20 (written_hash i.streams) g in
    ap
      (λ (b : Bytes).
        let named =
          pad_to8 (fixed_from i subdir b n ++ (name_bytes i.name ++ name_bytes i.short_name)) in
        let whole = if length i.extra == 0 then named else pad_to8 (named ++ i.extra) in
        write_at whole 0 (bytes8 (length whole)))
      (sym same)
    ∙ body_written (fixed_from i subdir (expand 20 (written_hash i.streams)) n)
        (name_bytes i.name ++ name_bytes i.short_name) i.extra
        (length-fixed_from i subdir (written_hash i.streams) n) h

pub laid_out-append :
    (i : EntryInfo) (subdir : ℕ) (g : Bytes) (n : ℕ) (t : Bytes) (l : ℕ) (r : Bytes)
    → laid_out i subdir g n t l ++ r ≡ laid_out i subdir g n (t ++ r) l
unfolding fixed_from
laid_out-append i subdir g n t l r = ground arith

pub length-laid_out :
    (i : EntryInfo) (subdir : ℕ) (g : Bytes) (n : ℕ) (t : Bytes) (l : ℕ)
    → length (laid_out i subdir g n t l) ≡ 102 + length t
unfolding fixed_from
length-laid_out i subdir g n t l = ground arith

pub entry_tail-aligned :
    (i : EntryInfo) → length i.extra % 8 ≡ 0 → (102 + length (entry_tail i)) % 8 ≡ 0
entry_tail-aligned i h =
    let names = name_bytes i.name ++ name_bytes i.short_name in
    omega (
      arith,
      length-append (names ++ padding (102 + length names)) i.extra,
      length-append names (padding (102 + length names)),
      length-replicate {A = ℕ} ((8 - (102 + length names) % 8) % 8) 0,
    )

-- Where the two names of an entry end.
pub behind_names :
    (i : EntryInfo)
    → behind_name (behind_name 102 (length i.name)) (length i.short_name)
      ≡ 102 + length (name_bytes i.name ++ name_bytes i.short_name)
behind_names i = omega (
  arith,
  behind_name-length 102 i.name,
  behind_name-length (behind_name 102 (length i.name)) i.short_name,
  length-append (name_bytes i.name) (name_bytes i.short_name),
)

pub min_len-behind_name : (m k : ℕ) → min_len_with_names m k ≡ behind_name (behind_name 102 m) k
unfolding min_len_with_names behind_name
min_len-behind_name m k = ground arith

pub min_len-tail :
    (i : EntryInfo)
    → min_len_with_names (length i.name) (length i.short_name) ≤ 102 + length (entry_tail i)
min_len-tail i =
    let names = name_bytes i.name ++ name_bytes i.short_name in
    omega (
      arith,
      min_len-behind_name (length i.name) (length i.short_name),
      behind_names i,
      length-append (names ++ padding (102 + length names)) i.extra,
      length-append names (padding (102 + length names)),
    )

-- The names and the extra data are read from the tail.
pub tail_fields :
    (i : EntryInfo) (p r : Bytes)
    → drop 102 p ≡ entry_tail i ++ r
    → (name_at p 102 (length i.name) ≡ i.name)
      × (name_at p (behind_name 102 (length i.name)) (length i.short_name) ≡ i.short_name)
      × (extra_at p
            (align_up8_int (behind_name (behind_name 102 (length i.name)) (length i.short_name)))
            (102 + length (entry_tail i))
          ≡ i.extra)
tail_fields i p r h =
    let ns = name_bytes i.short_name in
    let names = name_bytes i.name ++ ns in
    let pad = padding (102 + length names) in
    let split : drop 102 p ≡ name_bytes i.name ++ (ns ++ (pad ++ (i.extra ++ r))) =
      h ∙ simp append_assoc in
    let (name_is, h1) = name_at-name_bytes p i.name (ns ++ (pad ++ (i.extra ++ r))) 102 split in
    let q = behind_name 102 (length i.name) in
    let (short_is, h2) = name_at-name_bytes p i.short_name (pad ++ (i.extra ++ r)) q h1 in
    let q' = behind_name q (length i.short_name) in
    let e : align_up8_int q' ≡ q' + length pad =
      align-padding q' ∙ ap (λ (m : ℕ). q' + length (padding m)) (behind_names i) in
    let size : 102 + length (entry_tail i) ≡ align_up8_int q' + length i.extra =
      omega
        (arith, e, behind_names i, length-append (names ++ pad) i.extra, length-append names pad) in
    let h3 = drop-behind p pad (i.extra ++ r) q' (align_up8_int q') e h2 in
    (
      name_is,
      short_is,
      extra_at-behind p i.extra r (align_up8_int q') (102 + length (entry_tail i)) size h3,
    )
