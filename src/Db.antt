-- ===== src/Db.antt =====
-- The database of the tables of src/h4ckath0n/auth/models.py, with their primary keys and unique
-- columns. The sessions that read and write it are in `Db.Session`.
pub mod Session
pub mod Engine
use h4ckrth0n.Prelude.{
  Bool, ◌&&◌, String, Option, some, List, [], ◌∷◌, ◌++◌, map, distinct, present,
}
use h4ckrth0n.Models.{User, WebAuthnCredential, WebAuthnChallenge, PasswordResetToken, Device}

pub record Database : Type 0 where
  pub users : List User
  pub credentials : List WebAuthnCredential
  pub challenges : List WebAuthnChallenge
  pub reset_tokens : List PasswordResetToken
  pub devices : List Device

abbrev pub empty : Database
empty = record { users = []; credentials = []; challenges = []; reset_tokens = []; devices = [] }

unfoldable pub users_consistent : List User → Bool
users_consistent rows = distinct (map (λ u. u.id) rows) && distinct (present (λ u. u.email) rows)

unfoldable pub credentials_consistent : List WebAuthnCredential → Bool
credentials_consistent rows =
    distinct (map (λ c. c.id) rows) && distinct (map (λ c. c.credential_id) rows)

unfoldable pub challenges_consistent : List WebAuthnChallenge → Bool
challenges_consistent rows = distinct (map (λ f. f.id) rows)

unfoldable pub tokens_consistent : List PasswordResetToken → Bool
tokens_consistent rows = distinct (map (λ t. t.id) rows) && distinct (map (λ t. t.token_hash) rows)

unfoldable pub devices_consistent : List Device → Bool
devices_consistent rows =
    distinct (map (λ d. d.id) rows) && distinct (present (λ d. d.fingerprint) rows)

-- What the database checks before it stores rows.
unfoldable pub consistent : Database → Bool
consistent db =
    users_consistent db.users
    && credentials_consistent db.credentials
    && challenges_consistent db.challenges
    && tokens_consistent db.reset_tokens
    && devices_consistent db.devices
