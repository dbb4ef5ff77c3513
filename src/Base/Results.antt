-- ===== src/Base/Results.antt =====
-- The results of fallible code: a value, or an error of the component's own type.
use mathlib.Core.Path.{◌≡◌, refl}
use mathlib.Core.Logic.{◌⊎◌, inl, inr}

pub data Result {ℓ κ} (Failure : Type ℓ) (Value : Type κ) : Type (ℓ ⊔ κ) where
  err : Failure → Result Failure Value
  ok : Value → Result Failure Value

module _ {ℓ κ μ} {Failure : Type ℓ} {Value : Type κ} {Output : Type μ} where
  infixl 5 ◌>>=◌
  abbrev pub ◌>>=◌ : Result Failure Value → (Value → Result Failure Output) → Result Failure Output
  err failure >>= next = err failure
  ok v >>= next = next v

  -- A chain that succeeds has succeeded in its first part, and then in the rest.
  pub >>=-eq-ok :
      (first : Result Failure Value) (next : Value → Result Failure Output) {out : Output}
      → (first >>= next) ≡ ok out
      → (v : Value) × (first ≡ ok v) × (next v ≡ ok out)
  >>=-eq-ok (err failure) next done = cc
  >>=-eq-ok (ok v) next done = (v, refl, done)

pub Result-cases {ℓ κ} :
    {Failure : Type ℓ} {Value : Type κ} (result : Result Failure Value)
    → ((v : Value) × (result ≡ ok v)) ⊎ ((failure : Failure) × (result ≡ err failure))
Result-cases (err failure) = inr (failure, refl)
Result-cases (ok v) = inl (v, refl)
