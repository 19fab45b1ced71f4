-- ===== src/Passkeys/Ceremonies.antt =====
-- The three ceremonies of src/h4ckath0n/auth/passkeys/service.py: registration, authentication and
-- the addition of a credential, each a start and a finish in a session.
pub mod Facts
pub mod Inversion
pub mod Completion
pub mod Leaves
use h4ckrth0n.Prelude.{
  ℕ, ◌+◌, String, Bool, ◌&&◌, ◌||◌, true, false, not, Option, none, some, List, [], ◌∷◌, ◌++◌, ◌==◌,
  is_none, is_text, if◌then◌else◌, first, select, update,
}
use h4ckrth0n.Json.{Json, Fields, obj, str, lookup, truthy, equals_text}
use h4ckrth0n.Models.{Bytes, Time, seconds, User, WebAuthnCredential, WebAuthnChallenge}
use h4ckrth0n.Result.{Result, ok, err, value_error, attribute_error, integrity_error}
use h4ckrth0n.Config.{Settings, effective_rp_id, effective_origin}
use h4ckrth0n.Ids.{new_user_id, new_key_id}
use h4ckrth0n.Db.{Database}
use h4ckrth0n.Db.Session.{Tx, ◌>>=◌, ◌>>◌, pure, query, lift, modify, flush, commit, found, guard}
use h4ckrth0n.Text.Base64.{bytes_to_base64url, base64url_to_bytes}
use h4ckrth0n.Passkeys.Flows.{Draws, new_flow_id, new_challenge, get_valid_flow, consume_flow}
use h4ckrth0n.Passkeys.WebAuthn.{
  Library, VerifiedRegistration, VerifiedAuthentication, RegistrationOptions, AuthenticationOptions,
  make_registration_options, make_authentication_options, verify_registration,
  verify_authentication,
}

-- The text of `binascii.Error`, which is a `ValueError`, is not modelled.
unfoldable pub decoded : String → Result Bytes
decoded s = elim (base64url_to_bytes s) [
  | none ↦ err (value_error "malformed base64")
  | some b ↦ ok b
]

-- `credential_json.get("response", {}).get("transports")`, and the column for it
unfoldable pub transports : Fields → Result (Option Json)
transports credential = elim (lookup "response" credential) [
  | none ↦ ok none
  | some response ↦ elim response [
    | obj fields ↦ ok (elim (lookup "transports" fields) [
      | none ↦ none
      | some t ↦ if truthy t then some t else none
    ])
    | _ ↦ err (attribute_error "get")
  ]
]

-- `credential_json.get("rawId") or credential_json.get("id", "")`
unfoldable pub raw_id : Fields → Json
raw_id credential =
    let id : Json = elim (lookup "id" credential) [ none ↦ str "" | some v ↦ v ] in
    elim (lookup "rawId" credential) [ none ↦ id | some v ↦ if truthy v then v else id ]

abbrev pub add_user : User → Database → Database
add_user user db = record db { users = db.users ++ user ∷ [] }

abbrev pub add_challenge : WebAuthnChallenge → Database → Database
add_challenge flow db = record db { challenges = db.challenges ++ flow ∷ [] }

abbrev pub add_credential : WebAuthnCredential → Database → Database
add_credential cred db = record db { credentials = db.credentials ++ cred ∷ [] }

-- `User()`, with the defaults of its columns
abbrev pub blank_user : String → Time → User
blank_user id now = record {
  id = id;
  role = "user";
  scopes = "";
  created_at = now;
  disabled_at = none;
  email = none;
  password_hash = none;
}

abbrev pub new_flow :
    Draws → Settings → String → String → Option String → String → Time → Time → WebAuthnChallenge
new_flow d s rp_id origin user_id kind now created = record {
  id = new_flow_id d;
  challenge = bytes_to_base64url (new_challenge d);
  user_id = user_id;
  kind = kind;
  created_at = created;
  expires_at = now + seconds s.webauthn_ttl_seconds;
  consumed_at = none;
  rp_id = rp_id;
  origin = origin;
}

abbrev pub new_credential :
    String → String → VerifiedRegistration → Option Json → Time → WebAuthnCredential
new_credential id user_id v transports created = record {
  id = id;
  user_id = user_id;
  credential_id = bytes_to_base64url v.credential_id;
  public_key = v.credential_public_key;
  sign_count = v.sign_count;
  aaguid = some v.aaguid;
  transports = transports;
  name = none;
  created_at = created;
  last_used_at = none;
  revoked_at = none;
}

-- The credentials of a user that are not revoked.
unfoldable pub is_active : String → WebAuthnCredential → Bool
is_active user_id c = c.user_id == user_id && is_none c.revoked_at

abbrev pub user_by_id : String → Tx (Option User)
user_by_id id = query (λ db. first (λ u. u.id == id) db.users)

-- `[… base64url_to_bytes(c.credential_id) for c in existing]`
unfoldable pub descriptors : List WebAuthnCredential → Result (List Bytes)
unfolding decoded
descriptors [] = ok []
descriptors (c ∷ cs) = elim (decoded c.credential_id) [
  | err e ↦ err e
  | ok b ↦ elim (descriptors cs) [ err e ↦ err e | ok bs ↦ ok (b ∷ bs) ]
]

module _ (library : Library) (d : Draws) (settings : Settings) where
  unfoldable pub start_registration : Tx (String × RegistrationOptions)
  start_registration = do
    rp_id ← lift (effective_rp_id settings)
    origin ← lift (effective_origin settings)
    user_id ← lift (new_user_id d.stream)
    modify (add_user (blank_user user_id (d.clock 0)))
    flush
    modify (
        add_challenge
          (new_flow d settings rp_id origin (some user_id) "register" (d.clock 1) (d.clock 2)))
    commit
    options ← lift (
        make_registration_options library rp_id rp_id user_id user_id user_id (new_challenge d)
          settings [])
    pure (new_flow_id d, options)

  unfoldable pub start_authentication : Tx (String × AuthenticationOptions)
  start_authentication = do
    rp_id ← lift (effective_rp_id settings)
    origin ← lift (effective_origin settings)
    modify (
        add_challenge
          (new_flow d settings rp_id origin none "authenticate" (d.clock 0) (d.clock 1)))
    commit
    options ← lift (make_authentication_options library rp_id (new_challenge d) settings [])
    pure (new_flow_id d, options)

  unfoldable pub start_add_credential : User → Tx (String × RegistrationOptions)
  unfolding is_active
  start_add_credential user = do
    rp_id ← lift (effective_rp_id settings)
    origin ← lift (effective_origin settings)
    existing ← query (λ db. select (is_active user.id) db.credentials)
    exclude ← lift (descriptors existing)
    modify (
        add_challenge (
          new_flow d settings rp_id origin (some user.id) "add_credential" (d.clock 0) (d.clock 1)))
    commit
    options ← lift (
        make_registration_options library rp_id rp_id user.id user.id user.id (new_challenge d)
          settings exclude)
    pure (new_flow_id d, options)

-- The change of the stored credential's row after a login.
unfoldable pub record_use : ℕ → Time → WebAuthnCredential → Database → Database
record_use sign_count now stored db = record db {
  credentials =
      update (λ c. c.id == stored.id)
        (λ c. record c { sign_count = sign_count; last_used_at = some now }) db.credentials;
}

module _ (library : Library) (d : Draws) (flow_id : String) (credential : Fields) where
  -- What both registering ceremonies do with a valid flow, for the user that will own the
  -- credential. A NULL owner is refused by the database.
  unfoldable pub store_credential : WebAuthnChallenge → Option String → Tx WebAuthnCredential
  unfolding decoded transports
  store_credential flow user_id = do
    challenge ← lift (decoded flow.challenge)
    verified ← lift (verify_registration library (obj credential) challenge flow.rp_id flow.origin)
    consume_flow (d.clock 1) flow
    sent ← lift (transports credential)
    id ← lift (new_key_id d.stream)
    owner ← found user_id integrity_error
    let cred = new_credential id owner verified sent (d.clock 2)
    modify (add_credential cred)
    commit
    pure cred

  unfoldable pub finish_registration : Tx User
  finish_registration = do
    flow ← get_valid_flow (d.clock 0) flow_id "register"
    cred ← store_credential flow flow.user_id
    user ← user_by_id cred.user_id
    found user (value_error "User not found")

  unfoldable pub finish_add_credential : User → Tx WebAuthnCredential
  finish_add_credential current_user = do
    flow ← get_valid_flow (d.clock 0) flow_id "add_credential"
    guard (is_text flow.user_id current_user.id)
        (value_error "Flow does not belong to current user")
    store_credential flow (some current_user.id)

  unfoldable pub finish_authentication : Tx User
  unfolding decoded raw_id record_use
  finish_authentication = do
    flow ← get_valid_flow (d.clock 0) flow_id "authenticate"
    row ← query (λ db.
        first (λ c. equals_text c.credential_id (raw_id credential) && is_none c.revoked_at)
          db.credentials)
    stored ← found row (value_error "Unknown or revoked credential")
    challenge ← lift (decoded flow.challenge)
    verified ← lift (
        verify_authentication library (obj credential) challenge flow.rp_id flow.origin
          stored.public_key stored.sign_count)
    consume_flow (d.clock 1) flow
    modify (record_use verified.new_sign_count (d.clock 2) stored)
    commit
    user ← user_by_id stored.user_id
    found user (value_error "User not found")
