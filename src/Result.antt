-- ===== src/Result.antt =====
-- The exceptions that the modelled code raises, and the outcome of code that may raise.
use nw_edit.Prelude.{ℕ, String, ◌≡◌, refl, ◌⊎◌, inl, inr}

-- The classes of the exceptions with their texts; `http_error` is FastAPI's HTTPException with its
-- status code, and `netmiko_error` whatever netmiko raises, which is none of the other classes.
pub data Error : Type 0 where
  value_error lookup_error runtime_error netmiko_error : String → Error
  http_error : ℕ → String → Error

-- Raised, or returned.
pub data Result {ℓ} (Answer : Type ℓ) : Type ℓ where
  err : Error → Result Answer
  ok : Answer → Result Answer

module _ {ℓ κ} {First : Type ℓ} {Second : Type κ} where
  infixl 5 ◌>>=◌
  abbrev pub ◌>>=◌ : Result First → (First → Result Second) → Result Second
  err raised >>= rest = err raised
  ok answer >>= rest = rest answer

pub Result-cases {ℓ} :
    {Answer : Type ℓ} (r : Result Answer)
    → ((e : Error) × (r ≡ err e)) ⊎ ((answer : Answer) × (r ≡ ok answer))
Result-cases (err e) = inl (e, refl)
Result-cases (ok answer) = inr (answer, refl)
