-- ===== src/Auth/Passwords.antt =====
-- src/h4ckath0n/auth/service.py and src/h4ckath0n/auth/passwords.py: accounts with a password, devices
-- and password resets. Argon2 is a parameter, and so is the SHA-256 of a text in UTF-8.
pub mod Devices
pub mod Resets
pub mod Logins
use h4ckrth0n.Prelude.{
  ℕ, ◌+◌, String, Bool, true, false, not, ◌&&◌, Option, none, some, List, [], ◌∷◌, ◌++◌, ◌==◌, eqb,
  ltb, is_none, is_text, if◌then◌else◌, first, count, update, contains,
}
use h4ckrth0n.Json.{Json, Fields, obj, end, field, lookup, truthy}
use h4ckrth0n.Json.Dumps.{dumps}
use h4ckrth0n.Text.{append}
use h4ckrth0n.Text.Base64.{bytes_to_base64url}
use h4ckrth0n.Models.{Bytes, Time, minutes, User, PasswordResetToken, Device}
use h4ckrth0n.Config.{Settings}
use h4ckrth0n.Result.{Result, ok, err, value_error, runtime_error, library_error}
use h4ckrth0n.Ids.{new_user_id, new_token_id, new_device_id}
use h4ckrth0n.Db.{Database}
use h4ckrth0n.Db.Session.{Tx, ◌>>=◌, ◌>>◌, pure, query, lift, modify, commit, found, guard}

-- How `PasswordHasher.verify` ends: it returns, raises `VerifyMismatchError`, or something else.
pub data Verification : Type 0 where
  matches : Verification
  mismatch : Verification
  invalid : String → Verification

-- The `password` extra.
pub record Argon : Type 0 where
  pub hash : String → String
  pub verify : String → String → Verification

pub record Crypto : Type 0 where
  -- `none` if the extra is not installed
  pub argon : Option Argon
  -- `hashlib.sha256(text.encode()).hexdigest()`
  pub sha256 : String → String

-- What one request draws from outside: the clock, the random stream of the identifiers, and the 48
-- bytes of `secrets.token_urlsafe(48)`.
pub record Draws : Type 0 where
  pub now : Time
  pub stream : ℕ → Bytes
  pub token_bytes : Bytes

unfoldable pub verify_password : Argon → String → String → Result Bool
verify_password argon password hash_ = elim (argon.verify hash_ password) [
  | matches ↦ ok true
  | mismatch ↦ ok false
  | invalid e ↦ err (library_error e)
]

unfoldable pub require_password_extra : Crypto → Result Argon
require_password_extra crypto = elim crypto.argon [
  | none ↦ err (
      runtime_error
        "Password auth requires the \"password\" extra: pip install \"h4ckath0n[password]\"")
  | some argon ↦ ok argon
]

unfoldable pub is_bootstrap_admin : String → Settings → Database → Bool
is_bootstrap_admin email settings db =
    if contains email settings.bootstrap_admin_emails
    then true
    else if settings.first_user_is_admin
    then eqb (count (λ u. true) db.users) 0
    else false

abbrev pub user_by_email : String → Database → Option User
user_by_email email db = first (λ u. is_text u.email email) db.users

abbrev pub add_user : User → Database → Database
add_user user db = record db { users = db.users ++ user ∷ [] }

abbrev pub add_device : Device → Database → Database
add_device device db = record db { devices = db.devices ++ device ∷ [] }

abbrev pub add_token : PasswordResetToken → Database → Database
add_token t db = record db { reset_tokens = db.reset_tokens ++ t ∷ [] }

module _ (crypto : Crypto) (d : Draws) where
  unfoldable pub register_user : String → String → Settings → Tx User
  register_user email password settings = do
    argon ← lift (require_password_extra crypto)
    taken ← query (user_by_email email)
    guard (is_none taken) (value_error "Email already registered")
    is_admin ← query (is_bootstrap_admin email settings)
    id ← lift (new_user_id d.stream)
    let user : User = record {
      id = id;
      role = if is_admin then "admin" else "user";
      scopes = "";
      created_at = d.now;
      disabled_at = none;
      email = some email;
      password_hash = some (argon.hash password);
    } in
        do modify (add_user user); commit; pure user

-- `if not user.password_hash`
abbrev pub or_blank : Option String → String
or_blank none = ""
or_blank (some s) = s

unfoldable pub check_password : Argon → String → User → Result (Option User)
unfolding verify_password
check_password argon password user =
    if or_blank user.password_hash == ""
    then ok none
    else elim (verify_password argon password (or_blank user.password_hash)) [
      | err e ↦ err e
      | ok b ↦ ok (if b then some user else none)
    ]

unfoldable pub check_found : Argon → String → Option User → Result (Option User)
check_found argon password none = ok none
check_found argon password (some user) = check_password argon password user

unfoldable pub authenticate_user : Crypto → String → String → Tx (Option User)
authenticate_user crypto email password = do
  argon ← lift (require_password_extra crypto)
  row ← query (user_by_email email)
  lift (check_found argon password row)

abbrev and_field {ℓ} : {A : Type ℓ} → String → Fields → (Json → Option A) → Option A
and_field k jwk f = elim (lookup k jwk) [ none ↦ none | some v ↦ f v ]

-- The required fields in sorted order, if all are there.
unfoldable pub key_material : Fields → Option Fields
key_material jwk = and_field "crv" jwk λ crv. and_field "kty" jwk λ kty. and_field "x" jwk λ x.
    and_field "y" jwk λ y. some (field "crv" crv (field "kty" kty (field "x" x (field "y" y end))))

-- `", ".join(missing)`
unfoldable pub missing : List String → Fields → String
unfolding append
missing [] jwk = ""
missing (k ∷ ks) jwk =
    let rest = missing ks jwk in
    if is_none (lookup k jwk) then (if rest == "" then k else append k (append ", " rest)) else rest

abbrev pub missing_fields : Fields → String
missing_fields jwk =
    append "JWK missing required fields: " (missing ("crv" ∷ "kty" ∷ "x" ∷ "y" ∷ []) jwk)

unfoldable pub jwk_fingerprint : Crypto → Fields → Result String
unfolding key_material missing append
jwk_fingerprint crypto jwk = elim (key_material jwk) [
  | none ↦ err (value_error (missing_fields jwk))
  | some canonical ↦ ok (crypto.sha256 (dumps (obj canonical)))
]

abbrev pub device_by_fingerprint : String → Database → Option Device
device_by_fingerprint fp db = first (λ d. is_text d.fingerprint fp) db.devices

abbrev pub new_device : Draws → String → String → Fields → Option String → String → Device
new_device d id user_id jwk label fp = record {
  id = id;
  user_id = user_id;
  public_key_jwk = obj jwk;
  fingerprint = some fp;
  label = label;
  created_at = d.now;
  revoked_at = none;
}

module _ (crypto : Crypto) (d : Draws) where
  -- A key that was never seen.
  unfoldable pub add_new_device :
      String → Fields → Option String → String → Option Device → Tx String
  add_new_device user_id jwk label fp (some existing) = pure existing.id
  add_new_device user_id jwk label fp none = do
    id ← lift (new_device_id d.stream)
    modify (add_device (new_device d id user_id jwk label fp))
    commit
    pure id

  -- `if not public_key_jwk` holds for no key and for an empty one.
  unfoldable pub register_device : String → Option Fields → Option String → Tx String
  register_device user_id none label = pure ""
  register_device user_id (some end) label = pure ""
  register_device user_id (some (field k v fs)) label = do
    fp ← lift (jwk_fingerprint crypto (field k v fs))
    existing ← query (device_by_fingerprint fp)
    add_new_device user_id (field k v fs) label fp existing

  abbrev pub store_token : ℕ → Option User → Tx (Option String)
  store_token expire_minutes none = pure none
  store_token expire_minutes (some user) = do
    id ← lift (new_token_id d.stream)
    modify (
        add_token (record {
          id = id;
          user_id = user.id;
          token_hash = crypto.sha256 (bytes_to_base64url d.token_bytes);
          expires_at = d.now + minutes expire_minutes;
          used = false;
          created_at = d.now;
        }))
    commit
    pure (some (bytes_to_base64url d.token_bytes))

  unfoldable pub create_password_reset_token : String → ℕ → Tx (Option String)
  create_password_reset_token email expire_minutes = do
    row ← query (user_by_email email)
    store_token expire_minutes row

-- A reset token that the request's text names and that was not used.
abbrev pub is_usable : String → PasswordResetToken → Bool
is_usable hashed t = t.token_hash == hashed && not t.used

unfoldable pub mark_used : PasswordResetToken → Database → Database
mark_used prt db = record db {
  reset_tokens = update (λ t. t.id == prt.id) (λ t. record t { used = true }) db.reset_tokens;
}

unfoldable pub set_password : String → User → Database → Database
set_password hash user db = record db {
  users = update (λ u. u.id == user.id) (λ u. record u { password_hash = some hash }) db.users;
}

unfoldable pub confirm_password_reset : Crypto → Draws → String → String → Tx User
unfolding mark_used set_password
confirm_password_reset crypto d raw_token new_password = do
  argon ← lift (require_password_extra crypto)
  row ← query (λ db. first (is_usable (crypto.sha256 raw_token)) db.reset_tokens)
  prt ← found row (value_error "Invalid or already-used reset token")
  guard (not (ltb prt.expires_at d.now)) (value_error "Reset token expired")
  modify (mark_used prt)
  owner ← query (λ db. first (λ u. u.id == prt.user_id) db.users)
  user ← found owner (value_error "User not found")
  modify (set_password (argon.hash new_password) user)
  commit
  pure (record user { password_hash = some (argon.hash new_password) })
