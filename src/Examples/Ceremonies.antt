-- ===== src/Examples/Ceremonies.antt =====
-- Runs of a login and of a registration that go through.
use h4ckrth0n.Prelude.{
  ◌≡◌, ◌↔◌, refl, true, none, some, [], ◌∷◌, arith, first, contains, distinct, present, update,
}
use h4ckrth0n.Json.{lookup, truthy, equals_text}
use h4ckrth0n.Models.{WebAuthnCredential}
use h4ckrth0n.Result.{ok}
use h4ckrth0n.Ids.{new_key_id}
use h4ckrth0n.Db.{
  Database, consistent, users_consistent, credentials_consistent, challenges_consistent,
  tokens_consistent, devices_consistent,
}
use h4ckrth0n.Db.Session.{run}
use h4ckrth0n.Text.{append, tail, lower}
use h4ckrth0n.Text.Base32.{b32encode}
use h4ckrth0n.Text.Base64.{bytes_to_base64url, base64url_to_bytes}
use h4ckrth0n.Passkeys.Flows.{mark_consumed}
use h4ckrth0n.Passkeys.WebAuthn.{verify_registration, verify_authentication}
use h4ckrth0n.Passkeys.Ceremonies.{
  decoded, transports, raw_id, finish_registration, finish_authentication,
}
use h4ckrth0n.Passkeys.Ceremonies.Completion.{CanLogIn, CanRegister}
use h4ckrth0n.Passkeys.Ceremonies.Leaves.{
  LoginLeaves, RegistrationLeaves, login_iff, login_completes, registration_completes,
}
use h4ckrth0n.Prelude.{◌+◌, ◌≤◌, length, count, select}
use h4ckrth0n.Db.Session.{commit, ◌>>=◌}
use h4ckrth0n.Passkeys.Flows.{cleanup_expired_challenges}
use h4ckrth0n.Passkeys.Ceremonies.Inversion.{IsValid}
use h4ckrth0n.Passkeys.Service.Cleanup.{cleanup_spares-IsValid}
use h4ckrth0n.Examples.{library, draws, alice, bob, site, passkey, flow, response}

alice_can_log_in : CanLogIn library draws "f1" response site alice
unfolding first decoded base64url_to_bytes verify_authentication raw_id lookup truthy equals_text
alice_can_log_in = record {
  flow = flow "f1" "authenticate" none;
  cred = passkey "k1" "u1" "AQ";
  challenge = 7 ∷ [];
  verified = record { credential_id = 1 ∷ []; new_sign_count = 1 };
  valid = record { stored = refl; of_kind = refl; unused = refl; unexpired = omega arith };
  chosen = refl;
  decodes = refl;
  verifies = refl;
  user_found = refl;
}

site_keys : consistent site ≡ true
unfolding consistent users_consistent credentials_consistent challenges_consistent tokens_consistent
    devices_consistent distinct present contains
site_keys = refl

login_iff_example :
    ((run (finish_authentication library draws "f1" response) site).0 ≡ ok alice)
    ↔ CanLogIn library draws "f1" response site alice
login_iff_example = login_iff library draws "f1" response site alice site_keys

login_completes_example :
    (db' : Database) × (run (finish_authentication library draws "f1" response) site
      ≡ (ok alice, db'))
    × LoginLeaves library draws "f1" response site alice alice_can_log_in db'
login_completes_example =
    login_completes library draws "f1" response site alice alice_can_log_in site_keys

-- A registration of the second user that has started.
abbrev joining : Database
joining = record site { challenges = flow "f2" "register" (some "u2") ∷ [] }

bob_can_register : CanRegister library draws "f2" response joining bob
unfolding first decoded base64url_to_bytes verify_registration transports lookup new_key_id tail
    lower b32encode append consistent users_consistent credentials_consistent challenges_consistent
    tokens_consistent devices_consistent distinct present contains mark_consumed update
    bytes_to_base64url
bob_can_register = record {
  flow = flow "f2" "register" (some "u2");
  challenge = 7 ∷ [];
  verified = record {
    credential_id = 9 ∷ [];
    credential_public_key = 8 ∷ [];
    sign_count = 0;
    aaguid = "0";
  };
  sent = none;
  id = "kaaaaaaaaaaaaaaaaaaaaaaaaaaaaaaa";
  valid = record { stored = refl; of_kind = refl; unused = refl; unexpired = omega arith };
  decodes = refl;
  verifies = refl;
  transports_sent = refl;
  generated = refl;
  owned = refl;
  user_found = refl;
  id_free = refl;
  credential_free = refl;
}

joining_keys : consistent joining ≡ true
unfolding consistent users_consistent credentials_consistent challenges_consistent tokens_consistent
    devices_consistent distinct present contains
joining_keys = refl

registration_completes_example :
    (new : WebAuthnCredential) × (db' : Database) × (run
        (finish_registration library draws "f2" response)
        joining
      ≡ (ok bob, db'))
    × RegistrationLeaves library draws "f2" response joining bob bob_can_register new db'
registration_completes_example =
    registration_completes library draws "f2" response joining bob bob_can_register joining_keys

-- One flow that has expired, before one that has not.
abbrev cluttered : Database
cluttered = record site {
  challenges =
      record (flow "f0" "register" none) { expires_at = 100 } ∷ flow "f1" "authenticate" none ∷ [];
}

cleaned : run (cleanup_expired_challenges 900) cluttered ≡ (ok 1, site)
unfolding cleanup_expired_challenges commit ◌>>=◌ count select consistent users_consistent
    credentials_consistent challenges_consistent tokens_consistent devices_consistent distinct
    present contains
cleaned = refl

login-IsValid : IsValid 1000 "f1" "authenticate" cluttered (flow "f1" "authenticate" none)
unfolding first
login-IsValid = record { stored = refl; of_kind = refl; unused = refl; unexpired = omega arith }

in_order : 900 ≤ 1000
in_order = omega arith

cleanup_spares-IsValid_example :
    (1 + length site.challenges ≡ length cluttered.challenges)
    × IsValid 1000 "f1" "authenticate" site (flow "f1" "authenticate" none)
cleanup_spares-IsValid_example =
    cleanup_spares-IsValid 900 1000 "f1" "authenticate" 1 cluttered site
      (flow "f1" "authenticate" none) cleaned in_order login-IsValid
