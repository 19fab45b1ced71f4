-- ===== src/Examples/Operator.antt =====
-- Runs of the operator's commands.
use h4ckrth0n.Prelude.{
  ◌≡◌, ◌≢◌, refl, String, true, none, some, List, [], ◌∷◌, eq_iff, contains, first, update, count,
  distinct, present,
}
use h4ckrth0n.Json.{str, lookup}
use h4ckrth0n.Models.{User, WebAuthnCredential}
use h4ckrth0n.Result.{ok}
use h4ckrth0n.Db.{
  Database, consistent, users_consistent, credentials_consistent, challenges_consistent,
  tokens_consistent, devices_consistent,
}
use h4ckrth0n.Db.Session.{run, commit, ◌>>=◌}
use h4ckrth0n.Auth.Jwt.{auth_error, aud_http, get_unverified_kid, verify_device_jwt}
use h4ckrth0n.Passkeys.Ceremonies.{is_active}
use h4ckrth0n.Passkeys.Management.LastPasskey.{TakesOne}
use h4ckrth0n.Cli.{output, Selector}
use h4ckrth0n.Cli.Users.{cmd_users_scopes_set}
use h4ckrth0n.Cli.Keys.{cmd_devices_revoke, cmd_passkeys_revoke}
use h4ckrth0n.Cli.Effects.{revoked_device_refused}
use h4ckrth0n.Cli.LastKey.{operator-TakesOne}
use h4ckrth0n.Examples.{site, passkey}
use h4ckrth0n.Examples.Tokens.{tokens, office, device, scoped_user}

abbrev by_id : Selector
by_id = record { user_id = some "u1"; email = none }

abbrev as_read : List String → List String
as_read scopes = scopes

abbrev one_scope : List String
one_scope = "read" ∷ []

abbrev without_device : Database
without_device = (run (cmd_devices_revoke 7 true "d1") office).1

device_goes :
    run (cmd_devices_revoke 7 true "d1") office
    ≡ (ok (output (record device { revoked_at = some 7 })), without_device)
unfolding cmd_devices_revoke commit ◌>>=◌ first update consistent users_consistent
    credentials_consistent challenges_consistent tokens_consistent devices_consistent distinct
    present contains
device_goes = refl

abbrev d1 : String
d1 = "d1"

d1_given : d1 ≢ ""
d1_given = λ e. absurd (let t = (eq_iff d1 "").1 e in cc)

d1_named : get_unverified_kid tokens "t" ≡ some (str d1)
unfolding get_unverified_kid lookup
d1_named = refl

revoked_device_refused_example :
    verify_device_jwt tokens "t" aud_http without_device ≡ auth_error "Device revoked"
revoked_device_refused_example =
    revoked_device_refused tokens "t" aud_http "d1" 7 office without_device
      (record device { revoked_at = some 7 }) d1_given d1_named device_goes

abbrev without_key : Database
without_key = (run (cmd_passkeys_revoke 7 true "k1") site).1

abbrev revoked_key : WebAuthnCredential
revoked_key = record (passkey "k1" "u1" "AQ") { revoked_at = some 7 }

key_goes : run (cmd_passkeys_revoke 7 true "k1") site ≡ (ok (output revoked_key), without_key)
unfolding cmd_passkeys_revoke commit ◌>>=◌ first update count is_active consistent users_consistent
    credentials_consistent challenges_consistent tokens_consistent devices_consistent distinct
    present contains
key_goes = refl

abbrev other_id : String
other_id = "u2"

other_user : other_id ≢ revoked_key.user_id
other_user = λ e. absurd (let t = (eq_iff other_id revoked_key.user_id).1 e in cc)

operator-TakesOne_example : TakesOne "u1" "u2" site without_key
operator-TakesOne_example =
    operator-TakesOne 7 "k1" "u2" site without_key revoked_key key_goes other_user

abbrev with_read : Database
with_read = (run (cmd_users_scopes_set true by_id " read ,, write,read") office).1

abbrev reader : User
reader = record scoped_user { scopes = "read,write" }
