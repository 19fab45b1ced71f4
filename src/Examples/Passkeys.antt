-- ===== src/Examples/Passkeys.antt =====
-- Runs of the passkey service.
use h4ckrth0n.Prelude.{
  ◌≡◌, ◌≢◌, refl, ap, ◌&&◌, String, true, some, List, [], ◌∷◌, ◌==◌, eq_iff, first, count, update,
  distinct, present, arith, ltb, if◌then◌else◌,
}
use h4ckrth0n.Json.{lookup, truthy, equals_text}
use h4ckrth0n.Result.{Error, ok, err, value_error, last_passkey_error}
use h4ckrth0n.Models.{WebAuthnCredential}
use h4ckrth0n.Db.{
  Database, consistent, users_consistent, credentials_consistent, challenges_consistent,
  tokens_consistent, devices_consistent,
}
use h4ckrth0n.Db.Session.{run, ◌>>=◌, commit, or_rollback}
use h4ckrth0n.Text.{strip}
use h4ckrth0n.Text.Base64.{bytes_to_base64url, base64url_to_bytes}
use h4ckrth0n.Http.{responds}
use h4ckrth0n.Endpoint.{serve}
use h4ckrth0n.Passkeys.Flows.{new_flow_id, get_valid_flow, consume_flow}
use h4ckrth0n.Passkeys.Ceremonies.{finish_authentication, raw_id, record_use, is_active, decoded}
use h4ckrth0n.Passkeys.Management.{revoke_passkey, rename_passkey, set_revoked}
use h4ckrth0n.Passkeys.Management.LastPasskey.{revoke_active_passkey}
use h4ckrth0n.Passkeys.Router.{passkey_revoke}
use h4ckrth0n.Passkeys.Router.Answers.{Decided, revocation_decided}
use h4ckrth0n.Passkeys.WebAuthn.{verify_authentication}
use h4ckrth0n.Passkeys.Service.{Call, renames, revokes, starts_authentication, cleans_up, history}
use h4ckrth0n.Passkeys.Service.SingleUse.{logged_in, IsClosed, flow_serves_once}
use h4ckrth0n.Passkeys.Service.ActiveKeys.{HasPasskey, active_passkey_remains}
use h4ckrth0n.Passkeys.Service.Atomicity.{logging_in, ceremony_raises, no_user}
use h4ckrth0n.Examples.{library, draws, settings, alice, bob, site, passkey, response}

-- What the login leaves.
abbrev after_login : Database
after_login = (run (finish_authentication library draws "f1" response) site).1

login_finishes :
    run (finish_authentication library draws "f1" response) site ≡ (ok alice, after_login)
unfolding finish_authentication get_valid_flow consume_flow commit ◌>>=◌ consistent users_consistent
    distinct present credentials_consistent challenges_consistent tokens_consistent
    devices_consistent raw_id record_use decoded verify_authentication equals_text lookup truthy
    first update base64url_to_bytes
login_finishes = refl

abbrev site_later : List Call
site_later =
    starts_authentication draws settings ∷ renames alice "k1" (some " key ") ∷ cleans_up 9000 ∷ []

other_flow : new_flow_id draws ≢ "f1"
unfolding new_flow_id bytes_to_base64url
other_flow = λ e. absurd (let t = (eq_iff (new_flow_id draws) "f1").1 e in cc)

flow_serves_once_example : IsClosed library "f1" (history library after_login site_later)
flow_serves_once_example =
    flow_serves_once library "f1" site after_login site_later
      (logged_in draws response alice login_finishes) (other_flow, (tt, (tt, tt)))

alice_has_passkeys : HasPasskey "u1" site
unfolding count is_active
alice_has_passkeys = omega arith

active_passkey_remains_example :
    HasPasskey "u1" (history library site (revokes 10 alice "k1" ∷ revokes 11 alice "k2" ∷ []))
active_passkey_remains_example =
    active_passkey_remains library "u1" site (revokes 10 alice "k1" ∷ revokes 11 alice "k2" ∷ [])
      alice_has_passkeys

abbrev after_revocation : Database
after_revocation = (run (revoke_passkey 10 alice "k1") site).1

abbrev other_id : String
other_id = "u2"

site-consistent : consistent site ≡ true
unfolding consistent users_consistent distinct present credentials_consistent challenges_consistent
    tokens_consistent devices_consistent
site-consistent = refl

bob_chosen :
    first (λ c. c.id == "k3" && c.user_id == "u2") site.credentials ≡ some (passkey "k3" "u2" "Aw")
unfolding first
bob_chosen = refl

revoke_active_passkey_example : run (revoke_passkey 10 bob "k3") site ≡ (
    if ltb 1 (count (is_active "u2") site.credentials)
    then (ok tt, set_revoked 10 (passkey "k3" "u2" "Aw") site)
    else (err last_passkey_error, site))
revoke_active_passkey_example =
    revoke_active_passkey 10 bob "k3" site (passkey "k3" "u2" "Aw") site-consistent bob_chosen refl

revocation_decided_example :
    serve (passkey_revoke 10 (responds bob) "k3") site
    ≡ Decided 10 bob site (first (λ c. c.id == "k3" && c.user_id == "u2") site.credentials)
revocation_decided_example = revocation_decided 10 bob "k3" site site-consistent

last_passkey_raises : run (revoke_passkey 10 bob "k3") site ≡ (err last_passkey_error, site)
unfolding revoke_passkey or_rollback commit ◌>>=◌ first is_active count
last_passkey_raises = refl

abbrev unknown_flow : Error
unknown_flow = value_error "Unknown flow"

unknown_flow_raises :
    run (finish_authentication library draws "f2" response) site ≡ (err unknown_flow, site)
unfolding finish_authentication get_valid_flow ◌>>=◌ first
unknown_flow_raises = refl

abbrev message : Error → String
message (value_error m) = m
message e = ""

is_another : unknown_flow ≢ no_user
is_another = λ e. absurd (let t = (eq_iff "Unknown flow" "User not found").1 (ap message e) in cc)

ceremony_raises_example : site ≡ site
ceremony_raises_example =
    ceremony_raises site site unknown_flow
      (logging_in library draws "f2" response unknown_flow_raises) is_another

abbrev after_renaming : Database
after_renaming = (run (rename_passkey alice "k1" (some " key ")) site).1

abbrev renamed : WebAuthnCredential
renamed = record (passkey "k1" "u1" "AQ") { name = some "key" }

renaming_goes_through :
    run (rename_passkey alice "k1" (some " key ")) site ≡ (ok renamed, after_renaming)
unfolding rename_passkey commit ◌>>=◌ consistent users_consistent distinct present
    credentials_consistent challenges_consistent tokens_consistent devices_consistent first update
    strip
renaming_goes_through = refl
