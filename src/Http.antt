-- ===== src/Http.antt =====
-- How a request handler ends: a response, an `HTTPException` with its status and detail, the 422 with
-- which the framework answers a body that does not validate, or another exception, which the
-- framework answers with status 500.
use h4ckrth0n.Prelude.{ℕ}
use h4ckrth0n.Json.{Json}

pub data Http {ℓ} (A : Type ℓ) : Type ℓ where
  responds : A → Http A
  http_exception : ℕ → Json → Http A
  unprocessable : Http A
  crashes : Http A

infixl 5 ◌>>=◌
abbrev pub ◌>>=◌ {ℓ κ} : {A : Type ℓ} {B : Type κ} → Http A → (A → Http B) → Http B
responds a >>= f = f a
http_exception status detail >>= f = http_exception status detail
unprocessable >>= f = unprocessable
crashes >>= f = crashes
