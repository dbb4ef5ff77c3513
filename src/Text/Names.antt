-- ===== src/Text/Names.antt =====
-- Names compare by case folding: `foldKey` and strings.EqualFold. Unicode's table is not part of
-- the program, so the map from a code point to the smallest one of its simple-folding orbit is a
-- parameter, `fold`. Paths split at both slashes: `splitPath` and `splitKeyPath`.
use gowim.Base.{
  refl, leb, ltb, ◌&&◌, ◌-◌, ◌<◌, All, Bool-cases, inl, inr, arith, ℕ, Bool, true, List, [], ◌∷◌,
  ◌==◌, if◌then◌else◌, map, ◌≡◌, ◌++◌,
}
use gowim.Bytes.{eq_bytes, eq_bytes_iff, eq_bytes_refl}
use gowim.Text.Utf16.{Text, IsScalar}

unfoldable pub fold_key : (ℕ → ℕ) → Text → Text
fold_key fold s = map fold s

unfoldable pub equal_fold : (ℕ → ℕ) → Text → Text → Bool
unfolding fold_key
equal_fold fold s t = eq_bytes (fold_key fold s) (fold_key fold t)

pub equal_fold_refl : (fold : ℕ → ℕ) (s : Text) → equal_fold fold s s ≡ true
unfolding equal_fold
equal_fold_refl fold s = eq_bytes_refl (fold_key fold s)

pub equal_fold_trans :
    (fold : ℕ → ℕ) (s t u : Text)
    → equal_fold fold s t ≡ true
    → equal_fold fold s u ≡ equal_fold fold t u
unfolding equal_fold
equal_fold_trans fold s t u h = rw ((eq_bytes_iff (fold_key fold s) (fold_key fold t)).0 h)

-- strings.ReplaceAll(p, "\\", "/"), on one code point.
abbrev slash : ℕ → ℕ
slash c = if c == b'\\' then b'/' else c

-- strings.Split(p, "/") with the empty pieces left out; `piece` is the piece being read.
unfoldable pub split_onto : Text → Text → List Text
split_onto [] [] = []
split_onto (c ∷ piece) [] = (c ∷ piece) ∷ []
split_onto [] (c ∷ s) = if c == b'/' then split_onto [] s else split_onto (c ∷ []) s
split_onto (d ∷ piece) (c ∷ s) =
    let cut = (d ∷ piece) ∷ split_onto [] s in
    let longer = split_onto (d ∷ (piece ++ (c ∷ []))) s in if c == b'/' then cut else longer

unfoldable pub split_path : Text → List Text
unfolding split_onto
split_path p = split_onto [] (map slash p)

-- The components of a path of Unicode scalar values are made of those too.
map-slash-IsScalar : (s : Text) → All IsScalar s → All IsScalar (map slash s)
map-slash-IsScalar [] h = tt
map-slash-IsScalar (c ∷ s) h = (ground arith, map-slash-IsScalar s h.1)

All-snoc :
    (piece : Text) (c : ℕ) → All IsScalar piece → IsScalar c → All IsScalar (piece ++ (c ∷ []))
All-snoc [] c h k = (k, tt)
All-snoc (x ∷ piece) c h k = (h.0, All-snoc piece c h.1 k)

split_onto-IsScalar :
    (piece s : Text) → All IsScalar piece → All IsScalar s → All (All IsScalar) (split_onto piece s)
unfolding split_onto
split_onto-IsScalar [] [] h k = tt
split_onto-IsScalar (c ∷ piece) [] h k = (h, tt)
split_onto-IsScalar [] (c ∷ s) h k = elim (Bool-cases (c == b'/')) [
  | inl cut ↦ rw cut (split_onto-IsScalar [] s tt k.1)
  | inr more ↦ rw more (split_onto-IsScalar (c ∷ []) s (k.0, tt) k.1)
]
split_onto-IsScalar (d ∷ piece) (c ∷ s) h k = elim (Bool-cases (c == b'/')) [
  | inl cut ↦ rw cut (h, split_onto-IsScalar [] s tt k.1)
  | inr more ↦
      rw more (split_onto-IsScalar (d ∷ (piece ++ (c ∷ []))) s (h.0, All-snoc piece c h.1 k.0) k.1)
]

pub split_path-IsScalar : (p : Text) → All IsScalar p → All (All IsScalar) (split_path p)
unfolding split_path
split_path-IsScalar p h = split_onto-IsScalar [] (map slash p) tt (map-slash-IsScalar p h)

pub equal_fold_right :
    (fold : ℕ → ℕ) (n q t : Text)
    → equal_fold fold n q ≡ true
    → equal_fold fold t q ≡ equal_fold fold t n
unfolding equal_fold
equal_fold_right fold n q t h = rw ((eq_bytes_iff (fold_key fold n) (fold_key fold q)).0 h)

-- Simple case folding on ASCII: the smallest code point of an orbit is the capital letter.
abbrev pub upper : ℕ → ℕ
upper c = if leb b'a' c && leb c b'z' then c - 32 else c

abbrev pub IsAscii : Text → Type 0
IsAscii s = All (λ c. c < 128) s

map_ascii :
    (fold : ℕ → ℕ) (s : Text)
    → ((c : ℕ) → c < 128 → fold c ≡ upper c)
    → IsAscii s
    → map fold s ≡ map upper s
map_ascii fold [] f h = refl
map_ascii fold (c ∷ s) f h = rw (f c h.0, map_ascii fold s f h.1)

pub equal_fold-ascii :
    (fold : ℕ → ℕ) (s t : Text)
    → ((c : ℕ) → c < 128 → fold c ≡ upper c)
    → IsAscii s
    → IsAscii t
    → equal_fold fold s t ≡ equal_fold upper s t
unfolding equal_fold
equal_fold-ascii fold s t f h k = rw (map_ascii fold s f h, map_ascii fold t f k)

pub ascii-IsScalar : (s : Text) → IsAscii s → All IsScalar s
ascii-IsScalar [] h = tt
ascii-IsScalar (c ∷ s) h = (inl (omega (arith, h.0)), ascii-IsScalar s h.1)

abbrev pub is_ascii : Text → Bool
is_ascii [] = true
is_ascii (c ∷ s) = ltb c 128 && is_ascii s

pub is_ascii-IsAscii : (s : Text) → is_ascii s ≡ true → IsAscii s
is_ascii-IsAscii [] h = tt
is_ascii-IsAscii (c ∷ s) h = (ground arith, is_ascii-IsAscii s (ground arith))
