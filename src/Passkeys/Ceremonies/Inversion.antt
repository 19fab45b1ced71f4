-- ===== src/Passkeys/Ceremonies/Inversion.antt =====
-- What a ceremony that returns has checked and stored.
use h4ckrth0n.Prelude.{
  ◌≤◌, ◌≡◌, sym, ap, ◌∙◌, ◌&&◌, String, true, Option, none, some, arith, ◌==◌, eq_iff, is_none,
  is_text, subst, first,
}
use h4ckrth0n.Json.{Json, Fields, obj, equals_text}
use h4ckrth0n.Models.{Time, Bytes, User, WebAuthnChallenge, WebAuthnCredential}
use h4ckrth0n.Result.{ok}
use h4ckrth0n.Ids.{new_key_id}
use h4ckrth0n.Db.{Database, consistent}
use h4ckrth0n.Db.Session.{Session, Tx, ◌>>=◌, opened}
use h4ckrth0n.Db.Session.Laws.{
  Returns, of_bind, of_lift, of_found, of_guard, of_flush, of_modify, of_query, of_commit, pure-ok,
  found-ok,
}
use h4ckrth0n.Passkeys.Flows.{check_flow, get_valid_flow, mark_consumed, consume_flow, Draws}
use h4ckrth0n.Passkeys.WebAuthn.{
  Library, VerifiedRegistration, VerifiedAuthentication, verify_registration, verify_authentication,
}
use h4ckrth0n.Passkeys.Ceremonies.{
  add_credential, new_credential, decoded, transports, store_credential, raw_id, record_use,
  finish_registration, finish_add_credential, finish_authentication,
}

-- What a flow was checked for.
pub record IsValid (now : Time) (flow_id kind : String) (db : Database) (flow : WebAuthnChallenge)
    : Type 0 where
  pub stored : first (λ f. f.id == flow_id) db.challenges ≡ some flow
  pub of_kind : flow.kind ≡ kind
  pub unused : flow.consumed_at ≡ none
  pub unexpired : now ≤ flow.expires_at

pub get_valid_flow-ok :
    (now : Time) (flow_id kind : String) (s : Session) {flow : WebAuthnChallenge} {u : Session}
    → get_valid_flow now flow_id kind s ≡ (ok flow, u)
    → IsValid now flow_id kind s.working flow × (u ≡ s)
unfolding get_valid_flow ◌>>=◌ check_flow
get_valid_flow-ok now flow_id kind s h =
    of_found (first (λ f. f.id == flow_id) s.working.challenges) _ _ s h
      λ flow e g. ground (arith, eq_iff flow.kind kind)

module _ {κ μ} {B : Type κ} {C : Type μ} where
  pub of_valid :
      (now : Time) (flow_id kind : String) (f : WebAuthnChallenge → Tx B) (s : Session) {b : B}
      {u : Session}
      → Returns ((get_valid_flow now flow_id kind >>= f) s) b u
      → ((flow : WebAuthnChallenge)
          → IsValid now flow_id kind s.working flow
          → Returns (f flow s) b u
          → C)
      → C
  of_valid now flow_id kind f s {b} {u} h k =
      of_bind (get_valid_flow now flow_id kind) f s h λ flow t e g.
        let (valid, same) = get_valid_flow-ok now flow_id kind s e in
        k flow valid (subst (λ t. Returns (f flow t) b u) same g)

is_text-eq : (o : Option String) (t : String) → is_text o t ≡ true → o ≡ some t
is_text-eq none t h = cc
is_text-eq (some s) t h = ground (arith, eq_iff s t)

module _ {κ μ} {B : Type κ} {C : Type μ} where
  pub of_consume :
      (now : Time) (flow : WebAuthnChallenge) (f : Unit {0} → Tx B) (s : Session) {b : B}
      {u : Session}
      → Returns ((consume_flow now flow >>= f) s) b u
      → (Returns (f tt (record s { working = mark_consumed now flow s.working })) b u → C)
      → C
  unfolding consume_flow ◌>>=◌
  of_consume now flow f s h k = of_flush f _ h (λ _ g. k g)

module _ (library : Library) (d : Draws) (flow_id : String) (credential : Fields) where
  pub record Stored (flow : WebAuthnChallenge) (user_id : Option String) (db : Database)
      (cred : WebAuthnCredential) : Type 0 where
    pub challenge : Bytes
    pub verified : VerifiedRegistration
    pub sent : Option Json
    pub id : String
    pub owner : String
    pub decodes : decoded flow.challenge ≡ ok challenge
    pub verifies :
        verify_registration library (obj credential) challenge flow.rp_id flow.origin ≡ ok verified
    pub transports_sent : transports credential ≡ ok sent
    pub generated : new_key_id d.stream ≡ ok id
    pub owned : user_id ≡ some owner
    pub is_new : cred ≡ new_credential id owner verified sent (d.clock 2)
    pub checked : consistent (add_credential cred (mark_consumed (d.clock 1) flow db)) ≡ true

  -- The rows after a credential was stored.
  abbrev pub after_storing : WebAuthnChallenge → WebAuthnCredential → Database → Session
  after_storing flow cred db = opened (add_credential cred (mark_consumed (d.clock 1) flow db))

  pub store_credential-ok :
      (flow : WebAuthnChallenge) (user_id : Option String) (s : Session) {cred : WebAuthnCredential}
      {u : Session}
      → Returns (store_credential library d flow_id credential flow user_id s) cred u
      → Stored flow user_id s.working cred × (u ≡ after_storing flow cred s.working)
  unfolding store_credential
  store_credential-ok flow user_id s h = of_lift _ _ s h λ challenge decodes h₁.
      of_lift _ _ s h₁ λ verified verifies h₂. of_consume (d.clock 1) flow _ s h₂ λ h₃.
        of_lift _ _ _ h₃ λ sent sends h₄. of_lift _ _ _ h₄ λ id generated h₅.
          of_found _ _ _ _ h₅ λ owner owned h₆. of_modify _ _ _ h₆ λ h₇.
            of_commit _ _ h₇ λ checked h₈.
              let (same, left) = pure-ok _ _ h₈ in
              (
                record {
                  challenge = challenge;
                  verified = verified;
                  sent = sent;
                  id = id;
                  owner = owner;
                  decodes = decodes;
                  verifies = verifies;
                  transports_sent = sends;
                  generated = generated;
                  owned = owned;
                  is_new = same;
                  checked = rw same checked;
                },
                left ∙ ap (λ c. after_storing flow c s.working) (sym same),
              )

  of_stored {κ μ} :
      {B : Type κ} {C : Type μ} (flow : WebAuthnChallenge) (user_id : Option String)
      (f : WebAuthnCredential → Tx B) (s : Session) {b : B} {u : Session}
      → Returns ((store_credential library d flow_id credential flow user_id >>= f) s) b u
      → ((cred : WebAuthnCredential)
          → Stored flow user_id s.working cred
          → Returns (f cred (after_storing flow cred s.working)) b u
          → C)
      → C
  of_stored flow user_id f s {b} {u} h k = of_bind _ f s h λ cred v e g.
      let (stored, left) = store_credential-ok flow user_id s e in
      k cred stored (subst (λ v. Returns (f cred v) b u) left g)

  -- A returning finish of a registration: the flow that it used, the credential that it stored, and
  -- the user that it returns.
  pub record Registered (s u : Session) (user : User) : Type 0 where
    pub flow : WebAuthnChallenge
    pub cred : WebAuthnCredential
    pub valid : IsValid (d.clock 0) flow_id "register" s.working flow
    pub stored : Stored flow flow.user_id s.working cred
    pub user_found : first (λ r. r.id == cred.user_id) s.working.users ≡ some user
    pub left : u ≡ after_storing flow cred s.working

  pub finish_registration-ok :
      (s : Session) {user : User} {u : Session}
      → Returns (finish_registration library d flow_id credential s) user u
      → Registered s u user
  unfolding finish_registration mark_consumed
  finish_registration-ok s h = of_valid _ _ _ _ s h λ flow valid h₁.
      of_stored flow flow.user_id _ s h₁ λ cred stored h₂. of_query _ _ _ h₂ λ h₃.
        let (there, same) = found-ok _ _ _ h₃ in
        record {
          flow = flow;
          cred = cred;
          valid = valid;
          stored = stored;
          user_found = there;
          left = same;
        }

  pub record Added (current_user : User) (s u : Session) (cred : WebAuthnCredential) : Type 0 where
    pub flow : WebAuthnChallenge
    pub valid : IsValid (d.clock 0) flow_id "add_credential" s.working flow
    pub own : flow.user_id ≡ some current_user.id
    pub stored : Stored flow (some current_user.id) s.working cred
    pub left : u ≡ after_storing flow cred s.working

  pub finish_add_credential-ok :
      (current_user : User) (s : Session) {cred : WebAuthnCredential} {u : Session}
      → Returns (finish_add_credential library d flow_id credential current_user s) cred u
      → Added current_user s u cred
  unfolding finish_add_credential
  finish_add_credential-ok current_user s h = of_valid _ _ _ _ s h λ flow valid h₁.
      of_guard _ _ _ s h₁ λ own h₂.
        let (stored, left) = store_credential-ok flow (some current_user.id) s h₂ in
        record {
          flow = flow;
          valid = valid;
          own = is_text-eq flow.user_id current_user.id own;
          stored = stored;
          left = left;
        }

  pub record LoggedIn (s u : Session) (user : User) : Type 0 where
    pub flow : WebAuthnChallenge
    pub cred : WebAuthnCredential
    pub challenge : Bytes
    pub verified : VerifiedAuthentication
    pub valid : IsValid (d.clock 0) flow_id "authenticate" s.working flow
    pub chosen :
        first
          (λ c. equals_text c.credential_id (raw_id credential) && is_none c.revoked_at)
          s.working.credentials
        ≡ some cred
    pub decodes : decoded flow.challenge ≡ ok challenge
    pub verifies :
        verify_authentication library
          (obj credential)
          challenge
          flow.rp_id
          flow.origin
          cred.public_key
          cred.sign_count
        ≡ ok verified
    pub user_found : first (λ r. r.id == cred.user_id) s.working.users ≡ some user
    pub left :
        u
        ≡ opened (
            record_use verified.new_sign_count
              (d.clock 2)
              cred
              (mark_consumed (d.clock 1) flow s.working))

  pub finish_authentication-ok :
      (s : Session) {user : User} {u : Session}
      → Returns (finish_authentication library d flow_id credential s) user u
      → LoggedIn s u user
  unfolding finish_authentication mark_consumed
  finish_authentication-ok s h = of_valid _ _ _ _ s h λ flow valid h₁. of_query _ _ _ h₁ λ h₂.
      of_found _ _ _ _ h₂ λ cred chosen h₃. of_lift _ _ _ h₃ λ challenge decodes h₄.
        of_lift _ _ _ h₄ λ verified verifies h₅. of_consume _ _ _ _ h₅ λ h₆.
          of_modify _ _ _ h₆ λ h₇. of_commit _ _ h₇ λ checked h₈. of_query _ _ _ h₈ λ h₉.
            let (there, same) = found-ok _ _ _ h₉ in
            record {
              flow = flow;
              cred = cred;
              challenge = challenge;
              verified = verified;
              valid = valid;
              chosen = chosen;
              decodes = decodes;
              verifies = verifies;
              user_found = there;
              left = same;
            }
