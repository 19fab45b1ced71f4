-- ===== src/Examples.antt =====
-- Runs of the program at concrete inputs, with the data that they share: a WebAuthn library that takes
-- every response, a few users and rows, and a signed token.
pub mod Passkeys
pub mod Tokens
pub mod Accounts
pub mod Texts
pub mod Ceremonies
pub mod Operator
pub mod Interleaved
pub mod Runtime
pub mod Releases
pub mod Applied
use h4ckrth0n.Prelude.{
  ℕ, zero, suc, ◌+◌, String, Bool, true, false, Option, none, some, List, [], ◌∷◌,
}
use h4ckrth0n.Json.{Json, Fields, str, num, obj, end, field}
use h4ckrth0n.Models.{
  Bytes, Time, User, WebAuthnCredential, WebAuthnChallenge, Device, PasswordResetToken,
}
use h4ckrth0n.Result.{Result, ok}
use h4ckrth0n.Config.{Settings}
use h4ckrth0n.Db.{Database, empty}
use h4ckrth0n.Passkeys.WebAuthn.{Library}
use h4ckrth0n.Passkeys.Flows.{Draws}
use h4ckrth0n.Passkeys.Ceremonies.{blank_user}
use h4ckrth0n.Text.{append}
use h4ckrth0n.Auth.Passwords.{Argon, Crypto, Draws as AccountDraws, matches, mismatch}
use h4ckrth0n.Auth.Router.{DeviceBinding}
use h4ckrth0n.Prelude.{◌==◌, if◌then◌else◌}

abbrev pub library : Library
library = record {
  verify_registration_response = λ response challenge rp_id origin. ok (record {
    credential_id = 9 ∷ [];
    credential_public_key = 8 ∷ [];
    sign_count = 0;
    aaguid = "0";
  });
  verify_authentication_response = λ response challenge rp_id origin key count.
      ok (record { credential_id = 1 ∷ []; new_sign_count = count + 1 });
  user_verification_requirement = λ s. ok s;
  attestation_conveyance_preference = λ s. ok s;
}

-- As many zero bytes as are asked for.
abbrev pub zeros : ℕ → Bytes
zeros zero = []
zeros (suc n) = 0 ∷ zeros n

abbrev pub draws : Draws
draws = record {
  clock = λ n. 1000 + n;
  stream = zeros;
  challenge_bytes = 7 ∷ [];
  flow_bytes = 5 ∷ [];
}

abbrev pub settings : Settings
settings = record {
  env = "development";
  auto_upgrade = false;
  rp_id = "";
  origin = "";
  webauthn_ttl_seconds = 300;
  user_verification = "preferred";
  attestation = "none";
  password_auth_enabled = true;
  password_reset_expire_minutes = 30;
  bootstrap_admin_emails = [];
  first_user_is_admin = true;
  database_url = "sqlite:///./h4ckath0n.db";
}

abbrev pub alice : User
alice = blank_user "u1" 1

abbrev pub bob : User
bob = blank_user "u2" 2

abbrev pub passkey : String → String → String → WebAuthnCredential
passkey id user_id credential_id = record {
  id = id;
  user_id = user_id;
  credential_id = credential_id;
  public_key = 8 ∷ [];
  sign_count = 0;
  aaguid = none;
  transports = none;
  name = none;
  created_at = 1;
  last_used_at = none;
  revoked_at = none;
}

abbrev pub flow : String → String → Option String → WebAuthnChallenge
flow id kind user_id = record {
  id = id;
  challenge = "Bw";
  user_id = user_id;
  kind = kind;
  created_at = 1;
  expires_at = 5000;
  consumed_at = none;
  rp_id = "localhost";
  origin = "http://localhost:8000";
}

-- Two passkeys of one user, one of another, and a login that has started.
abbrev pub site : Database
site = record empty {
  users = alice ∷ bob ∷ [];
  credentials = passkey "k1" "u1" "AQ" ∷ passkey "k2" "u1" "Ag" ∷ passkey "k3" "u2" "Aw" ∷ [];
  challenges = flow "f1" "authenticate" none ∷ [];
}

abbrev pub response : Fields
response = field "id" (str "AQ") end

-- A hash that shows the password, and a digest that keeps the text.
abbrev pub argon : Argon
argon = record {
  hash = λ password. append "hash-" password;
  verify = λ hash password. if hash == append "hash-" password then matches else mismatch;
}

abbrev pub crypto : Crypto
crypto = record { argon = some argon; sha256 = λ text. text }

abbrev pub account_draws : AccountDraws
account_draws = record { now = 1000; stream = zeros; token_bytes = 5 ∷ [] }

-- A key without coordinates.
abbrev pub half_key : Fields
half_key = field "kty" (str "EC") (field "crv" (str "P-256") end)

abbrev pub half_binding : DeviceBinding
half_binding = record { device_public_key_jwk = some half_key; device_label = none }
