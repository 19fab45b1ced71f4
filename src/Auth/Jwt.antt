-- ===== src/Auth/Jwt.antt =====
-- src/h4ckath0n/auth/jwt.py and src/h4ckath0n/realtime/auth.py: the verification of a device-signed
-- token, and the three transports. PyJWT and `cryptography` are a parameter.
pub mod Acceptance
pub mod Audience
pub mod Owner
use Prim.Native.String
use h4ckrth0n.Prelude.{
  ℕ, zero, suc, String, Bool, true, false, not, Option, none, some, ◌==◌, is_none, is_text,
  if◌then◌else◌, first,
}
use h4ckrth0n.Json.{Json, Fields, null, str, lookup, truthy, equals_text}
use h4ckrth0n.Models.{Time, Device, User}
use h4ckrth0n.Db.{Database}
use h4ckrth0n.Text.{lower, append}

-- The ends of `ECAlgorithm(…).from_jwk(…)` and `public_bytes`: a key in PEM, one of the exceptions
-- that the verifier catches, or another.
pub data Key : Type 0 where
  pem : String → Key
  malformed : Key
  unsupported : Key

-- The ends of `jwt.decode` with ES256, no audience check and 30 seconds of leeway.
pub data Decoded : Type 0 where
  payload : Fields → Decoded
  expired : Decoded
  invalid : Decoded

pub record Library : Type 0 where
  -- `jwt.get_unverified_header`, `none` for its `InvalidTokenError`
  pub unverified_header : String → Option Fields
  pub public_key : Json → Key
  pub decode : String → String → Decoded
  -- pydantic's reading of a `datetime` field
  pub datetime : Json → Option Time

pub record JwtClaims : Type 0 where
  pub sub : String
  pub iat : Time
  pub exp : Time
  pub aud : Option String
  pub iss : Option String

-- A `str | None` field with the default `None`; the outer `none` is a validation error.
unfoldable pub optional_text : String → Fields → Option (Option String)
optional_text k fields = elim (lookup k fields) [
  | none ↦ some none
  | some v ↦ elim v [ null ↦ some none | str s ↦ some (some s) | _ ↦ none ]
]

unfoldable pub required_text : String → Fields → Option String
required_text k fields = elim (lookup k fields) [
  | none ↦ none
  | some v ↦ elim v [ str s ↦ some s | _ ↦ none ]
]

abbrev and_then {ℓ κ} : {A : Type ℓ} {B : Type κ} → Option A → (A → Option B) → Option B
and_then none f = none
and_then (some a) f = f a

module _ (library : Library) where
  -- `JwtClaims(**payload)`, `none` for pydantic's `ValidationError`
  unfoldable pub claims_of : Fields → Option JwtClaims
  unfolding optional_text required_text
  claims_of fields = and_then (required_text "sub" fields) λ sub.
      and_then (and_then (lookup "iat" fields) library.datetime) λ iat.
        and_then (and_then (lookup "exp" fields) library.datetime) λ exp.
          and_then (optional_text "aud" fields) λ aud.
            and_then (optional_text "iss" fields)
              λ iss. some (record { sub = sub; iat = iat; exp = exp; aud = aud; iss = iss })

  unfoldable pub get_unverified_kid : String → Option Json
  get_unverified_kid token = and_then (library.unverified_header token) (lookup "kid")

-- How a verification ends: an identity, an `AuthError` with its detail, or another exception.
pub data Verdict {ℓ} (A : Type ℓ) : Type ℓ where
  accepted : A → Verdict A
  auth_error : String → Verdict A
  crashed : Verdict A

pub record AuthContext : Type 0 where
  pub user_id : String
  pub device_id : String

abbrev pub aud_http : String
aud_http = "h4ckath0n:http"

abbrev pub aud_ws : String
aud_ws = "h4ckath0n:ws"

abbrev pub aud_sse : String
aud_sse = "h4ckath0n:sse"

module _ {ℓ κ} {A : Type ℓ} {B : Type κ} where
  infixl 5 ◌>>=◌
  unfoldable pub ◌>>=◌ : Verdict A → (A → Verdict B) → Verdict B
  accepted a >>= f = f a
  auth_error detail >>= f = auth_error detail
  crashed >>= f = crashed

infixl 5 ◌>>◌
abbrev pub ◌>>◌ {ℓ} : {B : Type ℓ} → Verdict (Unit {0}) → Verdict B → Verdict B
m >> k = m >>= λ _. k

module _ {ℓ} {A : Type ℓ} where
  abbrev pub or_error : Option A → String → Verdict A
  or_error none detail = auth_error detail
  or_error (some a) detail = accepted a

  abbrev pub or_crash : Option A → Verdict A
  or_crash none = crashed
  or_crash (some a) = accepted a

abbrev pub require : Bool → String → Verdict (Unit {0})
require b detail = if b then accepted tt else auth_error detail

abbrev pub key_or_error : Key → Verdict String
key_or_error (pem key) = accepted key
key_or_error malformed = auth_error "Invalid device key"
key_or_error unsupported = crashed

abbrev pub payload_or_error : Decoded → Verdict Fields
payload_or_error (payload fields) = accepted fields
payload_or_error expired = auth_error "Token expired"
payload_or_error invalid = auth_error "Invalid token"

-- `if not claims.aud`, and the comparison after it
unfoldable pub check_aud : JwtClaims → String → Verdict (Unit {0})
check_aud claims expected = elim claims.aud [
  | none ↦ auth_error "Missing aud claim"
  | some aud ↦
      if aud == ""
      then auth_error "Missing aud claim"
      else if aud == expected
      then accepted tt
      else auth_error (append "Invalid aud: expected " expected)
]

module _ (library : Library) where
  unfoldable pub verify_device_jwt : String → String → Database → Verdict AuthContext
  unfolding get_unverified_kid claims_of check_aud ◌>>=◌
  verify_device_jwt raw_jwt expected_aud db = do
    kid ← or_error (get_unverified_kid library raw_jwt) "Missing kid in JWT header"
    require (truthy kid) "Missing kid in JWT header"
    device ← or_error (first (λ d. equals_text d.id kid) db.devices) "Unknown device"
    require (is_none device.revoked_at) "Device revoked"
    key ← key_or_error (library.public_key device.public_key_jwk)
    fields ← payload_or_error (library.decode raw_jwt key)
    claims ← or_crash (claims_of library fields)
    check_aud claims expected_aud
    user ← or_error (first (λ u. u.id == claims.sub) db.users) "User not found"
    accepted (record { user_id = user.id; device_id = device.id })

-- What the transports read of a request: the `authorization` header and the `token` parameter.
pub record Request : Type 0 where
  pub authorization : Option String
  pub token : Option String

-- `headers.get(…, "")` and `query_params.get(…, "")`
abbrev pub or_empty : Option String → String
or_empty none = ""
or_empty (some s) = s

-- `s[n:]`
unfoldable pub drop_chars : ℕ → String → String
drop_chars zero s = s
drop_chars (suc n) String.[] = String.[]
drop_chars (suc n) (String.◌∷◌ c s) = drop_chars n s

-- `s[:n]`
unfoldable pub take_chars : ℕ → String → String
take_chars zero s = String.[]
take_chars (suc n) String.[] = String.[]
take_chars (suc n) (String.◌∷◌ c s) = String.◌∷◌ c (take_chars n s)

-- `auth_header.lower().startswith("bearer ")`: no other letter than `A` to `Z` is one of these in
-- lower case.
unfoldable pub is_bearer : String → Bool
unfolding take_chars
is_bearer header = take_chars 7 (lower header) == "bearer "

module _ (library : Library) where
  unfoldable pub authenticate_http_request : Request → Database → Verdict AuthContext
  unfolding verify_device_jwt is_bearer drop_chars
  authenticate_http_request request db =
      let header = or_empty request.authorization in
      if is_bearer header
      then verify_device_jwt library (drop_chars 7 header) aud_http db
      else auth_error "Missing Authorization header"

  unfoldable pub authenticate_sse_request : Request → Database → Verdict AuthContext
  unfolding verify_device_jwt is_bearer drop_chars
  authenticate_sse_request request db =
      let header = or_empty request.authorization in
      let raw_jwt = if is_bearer header then drop_chars 7 header else or_empty request.token in
      if raw_jwt == ""
      then auth_error "Missing token"
      else verify_device_jwt library raw_jwt aud_sse db

  unfoldable pub authenticate_websocket : Request → Database → Verdict AuthContext
  unfolding verify_device_jwt
  authenticate_websocket request db =
      let raw_jwt = or_empty request.token in
      if raw_jwt == ""
      then auth_error "Missing token"
      else verify_device_jwt library raw_jwt aud_ws db
