-- ===== src/Auth/Router/Binding.antt =====
-- The binding of a device at the end of an endpoint is not part of what is caught.
use h4ckrth0n.Prelude.{◌≡◌, ◌≢◌, refl, String, none, some}
use h4ckrth0n.Json.{Fields, end, field}
use h4ckrth0n.Models.{User}
use h4ckrth0n.Config.{Settings}
use h4ckrth0n.Result.{ok}
use h4ckrth0n.Db.{Database}
use h4ckrth0n.Db.Session.{Session, run}
use h4ckrth0n.Http.{crashes}
use h4ckrth0n.Endpoint.{serve, ◌>>=◌}
use h4ckrth0n.Endpoint.Laws.{serve-crashed}
use h4ckrth0n.Auth.Passwords.{Crypto, Draws, key_material, register_user, confirm_password_reset}
use h4ckrth0n.Auth.Passwords.Devices.{register_device-raises}
use h4ckrth0n.Auth.Router.{DeviceBinding, bind_device, register, password_reset_confirm}

-- A key that is sent and lacks one of the four fields.
pub record Unreadable (body : DeviceBinding) : Type 0 where
  pub jwk : Fields
  pub sent : body.device_public_key_jwk ≡ some jwk
  pub not_empty : jwk ≢ end
  pub incomplete : key_material jwk ≡ none

crashes_on :
    (crypto : Crypto) (d : Draws) (user : User) (body : DeviceBinding) (jwk : Fields) (s : Session)
    → body.device_public_key_jwk ≡ some jwk
    → jwk ≢ end
    → key_material jwk ≡ none
    → bind_device crypto d user body s ≡ (crashes, s)
unfolding bind_device ◌>>=◌
crashes_on crypto d user body end s sent full incomplete = absurd (full refl)
crashes_on crypto d user body (field k v fs) s sent full incomplete =
    rw (sent, register_device-raises crypto d user.id body.device_label k v fs s incomplete)

pub bind_device-crashes :
    (crypto : Crypto) (d : Draws) (user : User) (body : DeviceBinding) (s : Session)
    → Unreadable body
    → bind_device crypto d user body s ≡ (crashes, s)
bind_device-crashes crypto d user body s b =
    crashes_on crypto d user body b.jwk s b.sent b.not_empty b.incomplete

-- With a key that lacks a field, the registration of an address that goes through answers with the
-- framework's error, although the account is stored: the database is left as the service left it.
pub bad_key_after_registration :
    (crypto : Crypto) (d : Draws) (settings : Settings) (email password : String)
    (body : DeviceBinding) (db registered : Database) (user : User)
    → Unreadable body
    → run (register_user crypto d email password settings) db ≡ (ok user, registered)
    → serve (register crypto d settings email password body) db ≡ (crashes, registered)
unfolding register
bad_key_after_registration crypto d settings email password body db registered user b h =
    serve-crashed (register_user crypto d email password settings) _ _ db registered user h
      (λ s. bind_device-crashes crypto d user body s b)

-- With a key that lacks a field, the confirmation of a reset that goes through answers with the
-- framework's error, although the password is changed and the token is used: the database is left as
-- the service left it.
pub bad_key_after_reset :
    (crypto : Crypto) (d : Draws) (password token : String) (body : DeviceBinding)
    (db confirmed : Database) (owner : User)
    → Unreadable body
    → run (confirm_password_reset crypto d token password) db ≡ (ok owner, confirmed)
    → serve (password_reset_confirm crypto d token password body) db ≡ (crashes, confirmed)
unfolding password_reset_confirm
bad_key_after_reset crypto d password token body db confirmed owner b h =
    serve-crashed (confirm_password_reset crypto d token password) _ _ db confirmed owner h
      (λ s. bind_device-crashes crypto d owner body s b)
