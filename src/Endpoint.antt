-- ===== src/Endpoint.antt =====
-- A request handler on the session of its request: it calls the services, turns what they raise into
-- answers, and leaves a database behind.
pub mod Laws
use h4ckrth0n.Prelude.{ℕ, String, Option, none, some}
use h4ckrth0n.Json.{str}
use h4ckrth0n.Result.{
  Error, Result, ok, err, value_error, runtime_error, attribute_error, integrity_error,
  last_passkey_error, library_error,
}
use h4ckrth0n.Db.{Database}
use h4ckrth0n.Db.Session.{Session, Tx, opened}
use h4ckrth0n.Http.{Http, responds, http_exception, unprocessable, crashes}

abbrev pub Endpoint {ℓ} : Type ℓ → Type ℓ
Endpoint A = Session → Http A × Session

-- `except ValueError as exc: raise HTTPException(status, str(exc))`
abbrev pub value_errors {ℓ} : {A : Type ℓ} → ℕ → Error → Http A
value_errors status (value_error detail) = http_exception status (str detail)
value_errors status _ = crashes

-- Nothing is caught.
abbrev pub no_errors {ℓ} : {A : Type ℓ} → Error → Http A
no_errors e = crashes

abbrev pub answered {ℓ} : {A : Type ℓ} → (Error → Http A) → Result A → Http A
answered handle (ok a) = responds a
answered handle (err e) = handle e

module _ {ℓ} {A : Type ℓ} where
  unfoldable pub calls : Tx A → (Error → Http A) → Endpoint A
  calls m handle s = let (r, t) = m s in (answered handle r, t)

  -- A dependency that was resolved before, in sessions of its own.
  unfoldable pub given : Http A → Endpoint A
  given h s = (h, s)

  unfoldable pub answers : A → Endpoint A
  answers a s = (responds a, s)

module _ {ℓ κ} {A : Type ℓ} {B : Type κ} where
  abbrev pub go_on : Http A → (A → Endpoint B) → Session → Http B × Session
  go_on (responds a) f s = f a s
  go_on (http_exception status detail) f s = (http_exception status detail, s)
  go_on unprocessable f s = (unprocessable, s)
  go_on crashes f s = (crashes, s)

  infixl 5 ◌>>=◌
  unfoldable pub ◌>>=◌ : Endpoint A → (A → Endpoint B) → Endpoint B
  unfolding calls given answers
  ◌>>=◌ m f s = let (h, t) = m s in go_on h f t

infixl 5 ◌>>◌
abbrev pub ◌>>◌ {ℓ} : {B : Type ℓ} → Endpoint (Unit {0}) → Endpoint B → Endpoint B
m >> k = m >>= λ _. k

-- What a request answers and leaves behind.
abbrev pub serve {ℓ} : {A : Type ℓ} → Endpoint A → Database → Http A × Database
serve m db = let (h, s) = m (opened db) in (h, s.committed)
