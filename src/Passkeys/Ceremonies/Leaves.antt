-- ===== src/Passkeys/Ceremonies/Leaves.antt =====
-- What a ceremony that goes through leaves in the tables, row by row.
use h4ckrth0n.Prelude.{
  ◌≡◌, ◌↔◌, refl, ap, ◌∙◌, ◌&&◌, String, Bool, true, false, Option, some, List, [], ◌∷◌, map,
  distinct, contains, arith, ◌==◌, is_none, if◌then◌else◌, first, eq_refl, ◌++◌,
}
use h4ckrth0n.Prelude.Rows.{first-append}
use h4ckrth0n.Prelude.Keys.{first-update_one, first-none_of_absent, first-insert_one}
use h4ckrth0n.Json.{Fields}
use h4ckrth0n.Models.{Time, User, WebAuthnChallenge, WebAuthnCredential}
use h4ckrth0n.Result.{ok}
use h4ckrth0n.Text.Base64.{bytes_to_base64url}
use h4ckrth0n.Db.{Database, consistent, credentials_consistent, challenges_consistent}
use h4ckrth0n.Db.Session.{opened, run}
use h4ckrth0n.Db.Session.Laws.{run-Returns}
use h4ckrth0n.Passkeys.Flows.{Draws, mark_consumed}
use h4ckrth0n.Passkeys.WebAuthn.{Library}
use h4ckrth0n.Passkeys.Ceremonies.{
  add_credential, new_credential, record_use, finish_registration, finish_authentication,
}
use h4ckrth0n.Passkeys.Ceremonies.Inversion.{finish_authentication-ok}
use h4ckrth0n.Passkeys.Ceremonies.Completion.{
  CanLogIn, CanRegister, finish_authentication-CanLogIn, finish_registration-CanRegister,
}

abbrev pub passkey_with : String → Database → Option WebAuthnCredential
passkey_with id db = first (λ c. c.id == id) db.credentials

abbrev pub flow_with : String → Database → Option WebAuthnChallenge
flow_with id db = first (λ f. f.id == id) db.challenges

-- On a database that keeps its keys, a login returns a user exactly if the flow is a valid one of a
-- login, the response names a stored passkey that is not revoked and verifies for the flow's challenge
-- under that passkey's key and count, and the user is the stored owner of the passkey.
pub login_iff :
    (library : Library) (d : Draws) (flow_id : String) (credential : Fields) (db : Database)
    (user : User)
    → consistent db ≡ true
    → ((run (finish_authentication library d flow_id credential) db).0 ≡ ok user)
      ↔ CanLogIn library d flow_id credential db user
login_iff library d flow_id credential db user keys = (
  λ e.
      let login = finish_authentication library d flow_id credential in
      let (u, r, left) =
        run-Returns login db (run login db).1 user (λ i. (e i, (run login db).1)) in
      let l = finish_authentication-ok library d flow_id credential (opened db) r in
      record {
        flow = l.flow;
        cred = l.cred;
        challenge = l.challenge;
        verified = l.verified;
        valid = l.valid;
        chosen = l.chosen;
        decodes = l.decodes;
        verifies = l.verifies;
        user_found = l.user_found;
      },
  λ c. ap (λ r. r.0) (finish_authentication-CanLogIn library d flow_id credential db user c keys),
)

ids_distinct :
    (db : Database)
    → consistent db ≡ true
    → (distinct (map (λ c. c.id) db.credentials) ≡ true)
      × (distinct (map (λ f. f.id) db.challenges) ≡ true)
unfolding consistent credentials_consistent challenges_consistent
ids_distinct db h = (ground (arith, h), ground (arith, h))

-- The tables after a ceremony used a flow.
abbrev FlowUsed : Time → WebAuthnChallenge → Database → Database → Type 0
FlowUsed now flow db db' =
    (id : String)
    → flow_with id db'
      ≡ (if flow.id == id then some (record flow { consumed_at = some now }) else flow_with id db)

mark_consumed-FlowUsed :
    (now : Time) (flow_id : String) (flow : WebAuthnChallenge) (db : Database)
    → consistent db ≡ true
    → flow_with flow_id db ≡ some flow
    → FlowUsed now flow db (mark_consumed now flow db)
unfolding mark_consumed
mark_consumed-FlowUsed now flow_id flow db keys stored id =
    first-update_one (λ (f : WebAuthnChallenge). f.id) (λ f. f.id == flow_id)
      (λ f. record f { consumed_at = some now }) db.challenges flow id (λ f. refl)
      (ids_distinct db keys).1 stored

-- The tables after a login: the passkey has the count that was verified and the time of its last use,
-- the flow is consumed, and every other row is as it was.
pub record LoginLeaves (library : Library) (d : Draws) (flow_id : String) (credential : Fields)
    (db : Database) (user : User) (c : CanLogIn library d flow_id credential db user)
    (db' : Database) : Type 0 where
  pub passkeys :
      (id : String)
      → passkey_with id db' ≡ (
          if c.cred.id == id
          then some (record c.cred {
            sign_count = c.verified.new_sign_count;
            last_used_at = some (d.clock 2);
          })
          else passkey_with id db)
  pub flows : FlowUsed (d.clock 1) c.flow db db'
  pub users : db'.users ≡ db.users
  pub tokens : db'.reset_tokens ≡ db.reset_tokens
  pub devices : db'.devices ≡ db.devices

-- On a database that keeps its keys, a login for which there is enough returns the user and changes
-- two rows: its passkey has the verified count and the time of its last use, and its flow is consumed.
-- Every other passkey and flow and every other table is as it was.
pub login_completes :
    (library : Library) (d : Draws) (flow_id : String) (credential : Fields) (db : Database)
    (user : User) (c : CanLogIn library d flow_id credential db user)
    → consistent db ≡ true
    → (db' : Database) × (run (finish_authentication library d flow_id credential) db
        ≡ (ok user, db'))
      × LoginLeaves library d flow_id credential db user c db'
unfolding mark_consumed record_use
login_completes library d flow_id credential db user c keys = (
  record_use c.verified.new_sign_count (d.clock 2) c.cred (mark_consumed (d.clock 1) c.flow db),
  finish_authentication-CanLogIn library d flow_id credential db user c keys,
  record {
    passkeys = λ id.
        first-update_one (λ (x : WebAuthnCredential). x.id) _
          (λ x. record x {
            sign_count = c.verified.new_sign_count;
            last_used_at = some (d.clock 2);
          })
          db.credentials c.cred id (λ x. refl) (ids_distinct db keys).0 c.chosen;
    flows = mark_consumed-FlowUsed (d.clock 1) flow_id c.flow db keys c.valid.stored;
    users = refl;
    tokens = refl;
    devices = refl;
  },
)

-- The tables after a registration, for the passkey that was added.
pub record RegistrationLeaves (library : Library) (d : Draws) (flow_id : String)
    (credential : Fields) (db : Database) (user : User)
    (c : CanRegister library d flow_id credential db user) (new : WebAuthnCredential)
    (db' : Database) : Type 0 where
  pub owned : new.user_id ≡ user.id
  pub key : new.public_key ≡ c.verified.credential_public_key
  pub counted : new.sign_count ≡ c.verified.sign_count
  pub usable :
      first
        (λ x.
          x.credential_id == bytes_to_base64url c.verified.credential_id && is_none x.revoked_at)
        db'.credentials
      ≡ some new
  pub passkeys :
      (id : String) → passkey_with id db' ≡ (if new.id == id then some new else passkey_with id db)
  pub flows : FlowUsed (d.clock 1) c.flow db db'
  pub users : db'.users ≡ db.users
  pub tokens : db'.reset_tokens ≡ db.reset_tokens
  pub devices : db'.devices ≡ db.devices

-- A row with a new key, after an insertion at the end.
found_new :
    (key : WebAuthnCredential → String) (k : String) (p : WebAuthnCredential → Bool)
    (rows : List WebAuthnCredential) (new : WebAuthnCredential)
    → contains k (map key rows) ≡ false
    → key new ≡ k
    → p new ≡ true
    → first (λ x. key x == k && p x) (rows ++ new ∷ []) ≡ some new
unfolding first
found_new key k p rows new free e h =
    first-append (λ x. key x == k && p x) rows (new ∷ [])
    ∙ rw (first-none_of_absent key k p rows free, e, h) (ground (arith, eq_refl k))

-- On a database that keeps its keys, a registration for which there is enough returns the user and
-- adds a passkey of the user with the key and the count that were verified, which a login finds by its
-- credential identifier: it is not revoked. Its flow is consumed, and every other passkey and flow and
-- every other table is as it was.
pub registration_completes :
    (library : Library) (d : Draws) (flow_id : String) (credential : Fields) (db : Database)
    (user : User) (c : CanRegister library d flow_id credential db user)
    → consistent db ≡ true
    → (new : WebAuthnCredential) × (db' : Database) × (run
          (finish_registration library d flow_id credential)
          db
        ≡ (ok user, db'))
      × RegistrationLeaves library d flow_id credential db user c new db'
unfolding mark_consumed
registration_completes library d flow_id credential db user c keys =
    let new = new_credential c.id user.id c.verified c.sent (d.clock 2) in
    (
      new,
      add_credential new (mark_consumed (d.clock 1) c.flow db),
      finish_registration-CanRegister library d flow_id credential db user c keys,
      record {
        owned = refl;
        key = refl;
        counted = refl;
        usable =
            found_new (λ x. x.credential_id) (bytes_to_base64url c.verified.credential_id)
              (λ x. is_none x.revoked_at) db.credentials new c.credential_free refl refl;
        passkeys = λ id.
            first-insert_one (λ (x : WebAuthnCredential). x.id) db.credentials new id c.id_free;
        flows = mark_consumed-FlowUsed (d.clock 1) flow_id c.flow db keys c.valid.stored;
        users = refl;
        tokens = refl;
        devices = refl;
      },
    )
