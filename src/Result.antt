-- ===== src/Result.antt =====
-- What the program raises. A `RuntimeError` or `ValueError` carries its message; `library_error` is
-- an exception of a third-party library that is neither, or a key or type error.
use h4ckrth0n.Prelude.{String, ◌≡◌, refl, ◌⊎◌, inl, inr}

pub data Error : Type 0 where
  value_error : String → Error
  runtime_error : String → Error
  packaged_migrations_error : Error
  attribute_error : String → Error
  integrity_error : Error
  last_passkey_error : Error
  library_error : String → Error

pub data Result {ℓ} (A : Type ℓ) : Type ℓ where
  ok : A → Result A
  err : Error → Result A

pub Result-cases {ℓ} :
    {A : Type ℓ} (r : Result A) → ((a : A) × (r ≡ ok a)) ⊎ ((e : Error) × (r ≡ err e))
Result-cases (ok a) = inl (a, refl)
Result-cases (err e) = inr (e, refl)
