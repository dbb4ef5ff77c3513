-- ===== src/Bytes/Expand.antt =====
-- A buffer of a known length, written out byte by byte: the form in which writes at fixed offsets
-- compute. It serves the arrays that a fixed-size structure holds (hashes, GUIDs).
use gowim.Base.{ℕ, zero, suc, ◌≡◌, refl, ap, arith, [], ◌∷◌, length}
use gowim.Bytes.Fields.{Bytes}

abbrev head_or : Bytes → ℕ
head_or [] = 0
head_or (x ∷ xs) = x

abbrev rest_of : Bytes → Bytes
rest_of [] = []
rest_of (x ∷ xs) = xs

abbrev pub expand : ℕ → Bytes → Bytes
expand zero g = []
expand (suc n) g = head_or g ∷ expand n (rest_of g)

pub expand_lem : (n : ℕ) (g : Bytes) → length g ≡ n → expand n g ≡ g
expand_lem zero [] h = refl
expand_lem zero (x ∷ g) h = absurd (omega arith)
expand_lem (suc n) [] h = absurd (omega arith)
expand_lem (suc n) (x ∷ g) h = ap (◌∷◌ x) (expand_lem n g (omega arith))
