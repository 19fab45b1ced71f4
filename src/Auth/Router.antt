-- ===== src/Auth/Router.antt =====
-- src/h4ckath0n/auth/router.py: the password endpoints. The bodies are the fields of the schemas in
-- src/h4ckath0n/auth/schemas.py; that an address is one is pydantic's check.
pub mod Binding
use h4ckrth0n.Prelude.{ℕ, String, Option, none, some}
use h4ckrth0n.Json.{Fields, str}
use h4ckrth0n.Models.{User}
use h4ckrth0n.Config.{Settings}
use h4ckrth0n.Http.{Http, responds, http_exception}
use h4ckrth0n.Endpoint.{Endpoint, calls, given, answers, value_errors, no_errors, ◌>>=◌, ◌>>◌}
use h4ckrth0n.Auth.Passwords.{
  Crypto, Draws, register_user, authenticate_user, register_device, create_password_reset_token,
  confirm_password_reset,
}

-- `DeviceBindingMixin`
pub record DeviceBinding : Type 0 where
  pub device_public_key_jwk : Option Fields
  pub device_label : Option String

pub record DeviceBindingResponse : Type 0 where
  pub user_id : String
  pub device_id : String
  pub role : String

abbrev pub credentials_or_401 : Option User → Http User
credentials_or_401 none = http_exception 401 (str "Invalid credentials")
credentials_or_401 (some user) = responds user

module _ (crypto : Crypto) (d : Draws) where
  -- The end of every endpoint that knows its user: the device is bound, and what that raises is not
  -- caught.
  unfoldable pub bind_device : User → DeviceBinding → Endpoint DeviceBindingResponse
  bind_device user body = do
    device_id ←
        calls (register_device crypto d user.id body.device_public_key_jwk body.device_label)
          no_errors
    answers (record { user_id = user.id; device_id = device_id; role = user.role })

  unfoldable pub register :
      Settings → String → String → DeviceBinding → Endpoint DeviceBindingResponse
  unfolding bind_device
  register settings email password body = do
    user ← calls (register_user crypto d email password settings) (value_errors 409)
    bind_device user body

  unfoldable pub login : String → String → DeviceBinding → Endpoint DeviceBindingResponse
  unfolding bind_device
  login email password body = do
    row ← calls (authenticate_user crypto email password) no_errors
    user ← given (credentials_or_401 row)
    bind_device user body

  unfoldable pub password_reset_request : Settings → String → Endpoint String
  password_reset_request settings email = do
    token ←
        calls (create_password_reset_token crypto d email settings.password_reset_expire_minutes)
          no_errors
    answers "If that email is registered, a reset link was sent."

  unfoldable pub password_reset_confirm :
      String → String → DeviceBinding → Endpoint DeviceBindingResponse
  unfolding bind_device
  password_reset_confirm token new_password body = do
    user ← calls (confirm_password_reset crypto d token new_password) (value_errors 400)
    bind_device user body
