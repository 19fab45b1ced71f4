-- ===== src/Passkeys/Ceremonies/Completion.antt =====
-- Ceremonies that go through: what is enough for a finish to return, and what it leaves.
use h4ckrth0n.Prelude.{
  ℕ, ◌≡◌, refl, ◌∙◌, ◌&&◌, String, true, Option, some, arith, ◌==◌, eq_iff, is_none, first,
  contains, map, false,
}
use h4ckrth0n.Prelude.Rows.{map-update}
use h4ckrth0n.Prelude.Keys.{distinct-concat}
use h4ckrth0n.Text.Base64.{bytes_to_base64url}
use h4ckrth0n.Json.{Json, Fields, obj, equals_text}
use h4ckrth0n.Models.{Time, Bytes, User, WebAuthnChallenge, WebAuthnCredential}
use h4ckrth0n.Result.{ok}
use h4ckrth0n.Ids.{new_key_id}
use h4ckrth0n.Db.{Database, consistent, credentials_consistent, challenges_consistent}
use h4ckrth0n.Db.Session.{◌>>=◌, run, commit, found}
use h4ckrth0n.Passkeys.Flows.{Draws, check_flow, get_valid_flow, mark_consumed, consume_flow}
use h4ckrth0n.Passkeys.WebAuthn.{
  Library, VerifiedRegistration, VerifiedAuthentication, verify_registration, verify_authentication,
}
use h4ckrth0n.Passkeys.Ceremonies.{
  add_credential, new_credential, decoded, transports, raw_id, record_use, store_credential,
  finish_registration, finish_authentication,
}
use h4ckrth0n.Passkeys.Ceremonies.Inversion.{IsValid}

consistent-mark_consumed :
    (now : Time) (flow : WebAuthnChallenge) (db : Database)
    → consistent (mark_consumed now flow db) ≡ consistent db
unfolding consistent challenges_consistent mark_consumed
consistent-mark_consumed now flow db = rw (
    map-update (λ (f : WebAuthnChallenge). f.id) (λ f. f.id == flow.id)
      (λ f. record f { consumed_at = some now }) db.challenges (λ f. refl))

consistent-record_use :
    (n : ℕ) (now : Time) (cred : WebAuthnCredential) (db : Database)
    → consistent (record_use n now cred db) ≡ consistent db
unfolding consistent credentials_consistent record_use
consistent-record_use n now cred db =
    let use_it = λ (c : WebAuthnCredential). record c { sign_count = n; last_used_at = some now } in
    rw (
      map-update (λ (c : WebAuthnCredential). c.id) (λ c. c.id == cred.id) use_it db.credentials
          (λ c. refl),
      map-update (λ (c : WebAuthnCredential). c.credential_id) (λ c. c.id == cred.id) use_it
          db.credentials (λ c. refl),
    )

check_flow-IsValid :
    (now : Time) (flow_id kind : String) (db : Database) (flow : WebAuthnChallenge)
    → IsValid now flow_id kind db flow
    → check_flow now kind flow ≡ ok flow
unfolding check_flow
check_flow-IsValid now flow_id kind db flow v =
    ground (arith, eq_iff flow.kind kind, v.of_kind, v.unused, v.unexpired)

-- What is enough for a login.
pub record CanLogIn (library : Library) (d : Draws) (flow_id : String) (credential : Fields)
    (db : Database) (user : User) : Type 0 where
  pub flow : WebAuthnChallenge
  pub cred : WebAuthnCredential
  pub challenge : Bytes
  pub verified : VerifiedAuthentication
  pub valid : IsValid (d.clock 0) flow_id "authenticate" db flow
  pub chosen :
      first
        (λ c. equals_text c.credential_id (raw_id credential) && is_none c.revoked_at)
        db.credentials
      ≡ some cred
  pub decodes : decoded flow.challenge ≡ ok challenge
  pub verifies :
      verify_authentication library
        (obj credential)
        challenge
        flow.rp_id
        flow.origin
        cred.public_key
        cred.sign_count
      ≡ ok verified
  pub user_found : first (λ r. r.id == cred.user_id) db.users ≡ some user

-- The rows after a login.
abbrev pub after_login : Draws → WebAuthnChallenge → WebAuthnCredential → ℕ → Database → Database
after_login d flow cred n db = record_use n (d.clock 2) cred (mark_consumed (d.clock 1) flow db)

-- The run of a login for which there is enough.
pub finish_authentication-CanLogIn :
    (library : Library) (d : Draws) (flow_id : String) (credential : Fields) (db : Database)
    (user : User) (c : CanLogIn library d flow_id credential db user)
    → consistent db ≡ true
    → run (finish_authentication library d flow_id credential) db
      ≡ (ok user, after_login d c.flow c.cred c.verified.new_sign_count db)
unfolding finish_authentication get_valid_flow consume_flow ◌>>=◌ commit mark_consumed record_use
finish_authentication-CanLogIn library d flow_id credential db user c keys =
    let kept = consistent-mark_consumed (d.clock 1) c.flow db ∙ keys in
    let used =
      consistent-record_use c.verified.new_sign_count (d.clock 2) c.cred
        (mark_consumed (d.clock 1) c.flow db)
      ∙ kept in
    rw (
      c.valid.stored,
      found,
      check_flow-IsValid (d.clock 0) flow_id "authenticate" db c.flow c.valid,
      c.chosen,
      c.decodes,
      c.verifies,
      kept,
      used,
      c.user_found,
    )

-- What is enough for a registration: the identifiers of the new passkey are not taken.
pub record CanRegister (library : Library) (d : Draws) (flow_id : String) (credential : Fields)
    (db : Database) (user : User) : Type 0 where
  pub flow : WebAuthnChallenge
  pub challenge : Bytes
  pub verified : VerifiedRegistration
  pub sent : Option Json
  pub id : String
  pub valid : IsValid (d.clock 0) flow_id "register" db flow
  pub decodes : decoded flow.challenge ≡ ok challenge
  pub verifies :
      verify_registration library (obj credential) challenge flow.rp_id flow.origin ≡ ok verified
  pub transports_sent : transports credential ≡ ok sent
  pub generated : new_key_id d.stream ≡ ok id
  pub owned : flow.user_id ≡ some user.id
  pub user_found : first (λ r. r.id == user.id) db.users ≡ some user
  pub id_free : contains id (map (λ c. c.id) db.credentials) ≡ false
  pub credential_free :
      contains
        (bytes_to_base64url verified.credential_id)
        (map (λ c. c.credential_id) db.credentials)
      ≡ false

consistent-add_credential :
    (cred : WebAuthnCredential) (db : Database)
    → consistent db ≡ true
    → contains cred.id (map (λ c. c.id) db.credentials) ≡ false
    → contains cred.credential_id (map (λ c. c.credential_id) db.credentials) ≡ false
    → consistent (add_credential cred db) ≡ true
unfolding consistent credentials_consistent
consistent-add_credential cred db keys id_free credential_free = ground (
  arith,
  keys,
  distinct-concat (λ (c : WebAuthnCredential). c.id) db.credentials cred,
  distinct-concat (λ (c : WebAuthnCredential). c.credential_id) db.credentials cred,
  id_free,
  credential_free,
)

-- The run of a registration for which there is enough.
pub finish_registration-CanRegister :
    (library : Library) (d : Draws) (flow_id : String) (credential : Fields) (db : Database)
    (user : User) (c : CanRegister library d flow_id credential db user)
    → consistent db ≡ true
    → run (finish_registration library d flow_id credential) db ≡ (
      ok user,
      add_credential
          (new_credential c.id user.id c.verified c.sent (d.clock 2))
          (mark_consumed (d.clock 1) c.flow db),
    )
unfolding finish_registration store_credential get_valid_flow consume_flow ◌>>=◌ commit
    mark_consumed
finish_registration-CanRegister library d flow_id credential db user c consistent_before =
    let kept = consistent-mark_consumed (d.clock 1) c.flow db ∙ consistent_before in
    let checked =
      consistent-add_credential (new_credential c.id user.id c.verified c.sent (d.clock 2))
        (mark_consumed (d.clock 1) c.flow db) kept c.id_free c.credential_free in
    rw (
      c.valid.stored,
      found,
      check_flow-IsValid (d.clock 0) flow_id "register" db c.flow c.valid,
      c.decodes,
      c.verifies,
      kept,
      c.transports_sent,
      c.generated,
      c.owned,
      checked,
      c.user_found,
    )
