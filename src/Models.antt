-- ===== src/Models.antt =====
-- The rows of src/h4ckath0n/auth/models.py, with the source's columns, and JSON values.
-- A time is a number of microseconds in UTC; SQLite's naive datetimes are read as UTC, as the
-- services do. A column that holds serialised JSON holds the JSON value here.
use h4ckrth0n.Prelude.{ℕ, ◌*◌, ◌<◌, String, Bool, Option, List, [], ◌∷◌}
use h4ckrth0n.Json.{Json}

abbrev pub Time : Type 0
Time = ℕ

abbrev pub Bytes : Type 0
Bytes = List ℕ

-- Every byte is below 256.
abbrev pub AreBytes : Bytes → Type 0
AreBytes [] = Unit {0}
AreBytes (b ∷ bs) = (b < 256) × AreBytes bs

-- `timedelta(seconds=…)` and `timedelta(minutes=…)`
abbrev pub seconds : ℕ → Time
seconds n = n * 1000000

abbrev pub minutes : ℕ → Time
minutes n = n * 60000000

pub record User : Type 0 where
  pub id : String
  pub role : String
  pub scopes : String
  pub created_at : Time
  pub disabled_at : Option Time
  pub email : Option String
  pub password_hash : Option String

pub record WebAuthnCredential : Type 0 where
  pub id : String
  pub user_id : String
  pub credential_id : String
  pub public_key : Bytes
  pub sign_count : ℕ
  pub aaguid : Option String
  pub transports : Option Json
  pub name : Option String
  pub created_at : Time
  pub last_used_at : Option Time
  pub revoked_at : Option Time

pub record WebAuthnChallenge : Type 0 where
  pub id : String
  pub challenge : String
  pub user_id : Option String
  pub kind : String
  pub created_at : Time
  pub expires_at : Time
  pub consumed_at : Option Time
  pub rp_id : String
  pub origin : String

pub record PasswordResetToken : Type 0 where
  pub id : String
  pub user_id : String
  pub token_hash : String
  pub expires_at : Time
  pub used : Bool
  pub created_at : Time

pub record Device : Type 0 where
  pub id : String
  pub user_id : String
  pub public_key_jwk : Json
  pub fingerprint : Option String
  pub label : Option String
  pub created_at : Time
  pub revoked_at : Option Time
