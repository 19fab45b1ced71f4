-- ===== src/Passkeys/WebAuthn.antt =====
-- src/h4ckath0n/auth/passkeys/webauthn.py. The `webauthn` library is a parameter: what it verifies
-- and how it turns options into JSON is its own; here are the arguments that the wrapper gives it.
use h4ckrth0n.Prelude.{ℕ, ◌*◌, String, List}
use h4ckrth0n.Json.{Json}
use h4ckrth0n.Models.{Bytes}
use h4ckrth0n.Result.{Result, ok, err}
use h4ckrth0n.Config.{Settings}

-- `VerifiedRegistration`, the fields that the program reads
pub record VerifiedRegistration : Type 0 where
  pub credential_id : Bytes
  pub credential_public_key : Bytes
  pub sign_count : ℕ
  pub aaguid : String

pub record VerifiedAuthentication : Type 0 where
  pub credential_id : Bytes
  pub new_sign_count : ℕ

-- What the wrapper asks the library to build. The user handle is the UTF-8 of the user's id, kept as
-- a text; `resident_key` is always required.
pub record RegistrationOptions : Type 0 where
  pub rp_id : String
  pub rp_name : String
  pub user_id : String
  pub user_name : String
  pub user_display_name : String
  pub challenge : Bytes
  pub timeout : ℕ
  pub attestation : String
  pub user_verification : String
  pub exclude_credentials : List Bytes

pub record AuthenticationOptions : Type 0 where
  pub rp_id : String
  pub challenge : Bytes
  pub timeout : ℕ
  pub user_verification : String
  pub allow_credentials : List Bytes

-- The library's parser and verifier of each ceremony, in one call, and its enumerations, which
-- raise for a text that names no member.
pub record Library : Type 0 where
  pub verify_registration_response : Json → Bytes → String → String → Result VerifiedRegistration
  pub verify_authentication_response :
      Json → Bytes → String → String → Bytes → ℕ → Result VerifiedAuthentication
  pub user_verification_requirement : String → Result String
  pub attestation_conveyance_preference : String → Result String

abbrev then_build {ℓ κ} : {A : Type ℓ} {B : Type κ} → Result A → (A → Result B) → Result B
then_build (ok a) f = f a
then_build (err e) f = err e

module _ (library : Library) where
  unfoldable pub make_registration_options :
      String
      → String
      → String
      → String
      → String
      → Bytes
      → Settings
      → List Bytes
      → Result RegistrationOptions
  make_registration_options rp_id rp_name user_id user_name user_display_name challenge s exclude =
      then_build (library.attestation_conveyance_preference s.attestation) λ att.
        then_build (library.user_verification_requirement s.user_verification) λ uv. ok (record {
          rp_id = rp_id;
          rp_name = rp_name;
          user_id = user_id;
          user_name = user_name;
          user_display_name = user_display_name;
          challenge = challenge;
          timeout = s.webauthn_ttl_seconds * 1000;
          attestation = att;
          user_verification = uv;
          exclude_credentials = exclude;
        })

  unfoldable pub make_authentication_options :
      String → Bytes → Settings → List Bytes → Result AuthenticationOptions
  make_authentication_options rp_id challenge s allow =
      then_build (library.user_verification_requirement s.user_verification) λ uv. ok (record {
        rp_id = rp_id;
        challenge = challenge;
        timeout = s.webauthn_ttl_seconds * 1000;
        user_verification = uv;
        allow_credentials = allow;
      })

  unfoldable pub verify_registration : Json → Bytes → String → String → Result VerifiedRegistration
  verify_registration credential challenge rp_id origin =
      library.verify_registration_response credential challenge rp_id origin

  unfoldable pub verify_authentication :
      Json → Bytes → String → String → Bytes → ℕ → Result VerifiedAuthentication
  verify_authentication credential challenge rp_id origin public_key sign_count =
      library.verify_authentication_response credential challenge rp_id origin public_key sign_count
