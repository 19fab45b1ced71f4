-- ===== src/Config.antt =====
-- The settings of src/h4ckath0n/config.py that the modelled parts read. How they are read from the
-- environment is pydantic's.
use h4ckrth0n.Prelude.{ℕ, String, Bool, List, ◌==◌, if◌then◌else◌}
use h4ckrth0n.Result.{Result, ok, err, runtime_error}

pub record Settings : Type 0 where
  pub env : String
  pub database_url : String
  pub auto_upgrade : Bool
  pub rp_id : String
  pub origin : String
  pub webauthn_ttl_seconds : ℕ
  pub user_verification : String
  pub attestation : String
  pub password_auth_enabled : Bool
  pub password_reset_expire_minutes : ℕ
  pub bootstrap_admin_emails : List String
  pub first_user_is_admin : Bool

-- The warnings of the development defaults are not modelled.
unfoldable pub effective_rp_id : Settings → Result String
effective_rp_id s =
    if s.rp_id == ""
    then (if s.env == "production"
        then err (runtime_error "H4CKATH0N_RP_ID must be set in production mode.")
        else ok "localhost")
    else ok s.rp_id

unfoldable pub effective_origin : Settings → Result String
effective_origin s =
    if s.origin == ""
    then (if s.env == "production"
        then err (runtime_error "H4CKATH0N_ORIGIN must be set in production mode.")
        else ok "http://localhost:8000")
    else ok s.origin
