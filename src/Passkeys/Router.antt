-- ===== src/Passkeys/Router.antt =====
-- src/h4ckath0n/auth/passkeys/router.py: the passkey endpoints. The bodies are the fields of the
-- schemas in src/h4ckath0n/auth/passkeys/schemas.py. An endpoint of a signed-in user takes the answer
-- of `get_current_user`, which the framework resolves before the handler.
pub mod Answers
use Prim.Native.String
use h4ckrth0n.Prelude.{
  ℕ, String, Bool, true, false, ◌||◌, Option, none, some, List, map, ◌==◌, leb, if◌then◌else◌,
}
use h4ckrth0n.Json.{Fields, Json, str, obj, end, field}
use h4ckrth0n.Models.{Time, User, WebAuthnCredential}
use h4ckrth0n.Config.{Settings}
use h4ckrth0n.Text.{length, lower}
use h4ckrth0n.Result.{Error, value_error, last_passkey_error}
use h4ckrth0n.Http.{Http, responds, http_exception, unprocessable, crashes}
use h4ckrth0n.Endpoint.{Endpoint, calls, given, answers, value_errors, no_errors, ◌>>=◌, ◌>>◌}
use h4ckrth0n.Auth.Passwords.{Crypto, Draws as DeviceDraws}
use h4ckrth0n.Auth.Router.{DeviceBinding, DeviceBindingResponse, bind_device}
use h4ckrth0n.Passkeys.WebAuthn.{Library, RegistrationOptions, AuthenticationOptions}
use h4ckrth0n.Passkeys.Flows.{Draws}
use h4ckrth0n.Passkeys.Ceremonies.{
  start_registration, finish_registration, start_authentication, finish_authentication,
  start_add_credential, finish_add_credential,
}
use h4ckrth0n.Passkeys.Management.{list_passkeys, rename_passkey, revoke_passkey}

-- What the finishing endpoints read of a body.
pub record FinishRequest : Type 0 where
  pub flow_id : String
  pub credential : Fields
  pub binding : DeviceBinding

module _ (library : Library) (crypto : Crypto) (d : Draws) (e : DeviceDraws) where
  unfoldable pub register_start : Settings → Endpoint (String × RegistrationOptions)
  register_start settings = calls (start_registration library d settings) no_errors

  unfoldable pub register_finish : FinishRequest → Endpoint DeviceBindingResponse
  unfolding bind_device
  register_finish body = do
    user ← calls (finish_registration library d body.flow_id body.credential) (value_errors 400)
    bind_device crypto e user body.binding

  unfoldable pub login_start : Settings → Endpoint (String × AuthenticationOptions)
  login_start settings = calls (start_authentication library d settings) no_errors

  unfoldable pub login_finish : FinishRequest → Endpoint DeviceBindingResponse
  unfolding bind_device
  login_finish body = do
    user ← calls (finish_authentication library d body.flow_id body.credential) (value_errors 401)
    bind_device crypto e user body.binding

  unfoldable pub add_start : Http User → Settings → Endpoint (String × RegistrationOptions)
  add_start current settings = do
    user ← given current
    calls (start_add_credential library d settings user) no_errors

  unfoldable pub add_finish : Http User → FinishRequest → Endpoint DeviceBindingResponse
  unfolding bind_device
  add_finish current body = do
    user ← given current
    cred ←
        calls (finish_add_credential library d body.flow_id body.credential user) (value_errors 400)
    bind_device crypto e user body.binding

pub record PasskeyInfo : Type 0 where
  pub id : String
  pub name : Option String
  pub created_at : Time
  pub last_used_at : Option Time
  pub revoked_at : Option Time

abbrev pub info : WebAuthnCredential → PasskeyInfo
info c = record {
  id = c.id;
  name = c.name;
  created_at = c.created_at;
  last_used_at = c.last_used_at;
  revoked_at = c.revoked_at;
}

unfoldable pub passkeys_list : Http User → Endpoint (List PasskeyInfo)
passkeys_list current = do
  user ← given current
  creds ← calls (list_passkeys user) no_errors
  answers (map info creds)

-- `PasskeyRevokeError(…).model_dump()`
abbrev pub last_passkey_detail : Json
last_passkey_detail = obj (
    field "code" (str "LAST_PASSKEY") (
      field "message"
        (str
          "Cannot revoke the last active passkey. Add another passkey via POST /auth/passkey/add/start first.")
        end))

abbrev pub revoke_errors {ℓ} : {A : Type ℓ} → Error → Http A
revoke_errors last_passkey_error = http_exception 409 last_passkey_detail
revoke_errors (value_error detail) = http_exception 404 (str detail)
revoke_errors _ = crashes

unfoldable pub passkey_revoke : Time → Http User → String → Endpoint String
passkey_revoke now current key_id = do
  user ← given current
  calls (revoke_passkey now user key_id) revoke_errors
  answers "Passkey revoked"

-- `s.startswith(prefix)`
unfoldable pub starts_with : String → String → Bool
starts_with String.[] s = true
starts_with (String.◌∷◌ c p) String.[] = false
starts_with (String.◌∷◌ c p) (String.◌∷◌ d s) =
    let rest = starts_with p s in if String.◌∷◌ c "" == String.◌∷◌ d "" then rest else false

-- `part in s`
unfoldable pub is_in : String → String → Bool
unfolding starts_with
is_in part String.[] = part == ""
is_in part (String.◌∷◌ c s) = starts_with part (String.◌∷◌ c s) || is_in part s

abbrev pub rename_errors {ℓ} : {A : Type ℓ} → Error → Http A
rename_errors (value_error detail) =
    if is_in "revoked" (lower detail)
    then http_exception 409 (str detail)
    else http_exception 404 (str detail)
rename_errors _ = crashes

-- `max_length=64`
abbrev pub valid_name : Option String → Bool
valid_name none = true
valid_name (some name) = leb (length name) 64

pub record PasskeyRenameResponse : Type 0 where
  pub id : String
  pub name : Option String

unfoldable pub passkey_rename : Http User → String → Option String → Endpoint PasskeyRenameResponse
unfolding is_in
passkey_rename current key_id name = do
  user ← given current
  given (if valid_name name then responds tt else unprocessable)
  cred ← calls (rename_passkey user key_id name) rename_errors
  answers (record { id = cred.id; name = cred.name })
