-- ===== src/Passkeys/Service/SingleUse.antt =====
-- A flow serves one ceremony: once it has served, it opens no other, whatever is called later.
use h4ckrth0n.Prelude.{◌≡◌, ◌≢◌, String, List, arith, subst, sym, eq_iff, ap, ◌∙◌, ◌==◌}
use h4ckrth0n.Prelude.Rows.{count-select-le, first-true}
use h4ckrth0n.Json.{Fields}
use h4ckrth0n.Models.{Time, User, WebAuthnChallenge, WebAuthnCredential}
use h4ckrth0n.Result.{ok}
use h4ckrth0n.Db.{Database}
use h4ckrth0n.Db.Session.{Session, run, modify, opened}
use h4ckrth0n.Db.Session.Laws.{run-Returns}
use h4ckrth0n.Db.Session.Keeps.{Keeps, Keeps-modify, Keeps-or_rollback, keeps_rules}
use h4ckrth0n.Passkeys.WebAuthn.{Library}
use h4ckrth0n.Passkeys.Flows.{Draws, get_valid_flow, mark_consumed}
use h4ckrth0n.Passkeys.Ceremonies.{
  finish_registration, finish_authentication, finish_add_credential, record_use,
}
use h4ckrth0n.Passkeys.Ceremonies.Facts.{
  IsSpent, IsSpent-mark_consumed, IsSpent-add_challenge, mark_consumed-IsSpent,
  get_valid_flow-IsSpent, Raises, Raises-bind, is_open,
}
use h4ckrth0n.Passkeys.Ceremonies.Inversion.{
  IsValid, finish_registration-ok, finish_add_credential-ok, finish_authentication-ok,
}
use h4ckrth0n.Passkeys.Management.{revoke_passkey, revoke_in_lock, set_name, set_revoked}
use h4ckrth0n.Passkeys.Service.{Call, history}
use h4ckrth0n.Passkeys.Service.Keeps.{Survives, AllFresh, history-keeps}

module _ (flow_id : String) where
  set_revoked-Keeps :
      (now : Time) (c : WebAuthnCredential) → Keeps (IsSpent flow_id) (modify (set_revoked now c))
  unfolding set_revoked
  set_revoked-Keeps n c = Keeps-modify _ (λ db h. h)

  revoke-Keeps :
      (now : Time) (u : User) (k : String) → Keeps (IsSpent flow_id) (revoke_passkey now u k)
  unfolding revoke_passkey revoke_in_lock
  revoke-Keeps now u k = search (keeps_rules, Keeps-or_rollback, set_revoked-Keeps) depth 12

  -- Nothing opens a spent flow, unless a new flow is given its identifier.
  IsSpent-survives : Survives (IsSpent flow_id) (λ id. id ≢ flow_id)
  unfolding record_use set_name
  IsSpent-survives = record {
    user = λ u db h. h;
    credential = λ c db h. h;
    challenge = λ f db fresh h. IsSpent-add_challenge flow_id f db fresh h;
    consumed = λ now f db h. IsSpent-mark_consumed flow_id now f db h;
    login = λ n now c db h. h;
    name = λ n c db h. h;
    cleanup = λ now db h. omega (arith, count-select-le (is_open flow_id) _ db.challenges);
    revoke = revoke-Keeps;
  }

-- A flow that was valid and is marked is spent.
valid-IsSpent :
    (now then : Time) (flow_id kind : String) (db : Database) (flow : WebAuthnChallenge)
    → IsValid now flow_id kind db flow
    → IsSpent flow_id (mark_consumed then flow db)
valid-IsSpent now then flow_id kind db flow v =
    mark_consumed-IsSpent then flow flow_id db
      ((eq_iff flow.id flow_id).0 (first-true (λ f. f.id == flow_id) db.challenges flow v.stored))

-- A finish of some ceremony on a flow that returned and left a database.
pub data Finished (library : Library) (flow_id : String) (db db' : Database) : Type 0 where
  registered :
      (d : Draws) (c : Fields) (user : User)
      → run (finish_registration library d flow_id c) db ≡ (ok user, db')
      → Finished library flow_id db db'
  logged_in :
      (d : Draws) (c : Fields) (user : User)
      → run (finish_authentication library d flow_id c) db ≡ (ok user, db')
      → Finished library flow_id db db'
  added :
      (d : Draws) (c : Fields) (user : User) (cred : WebAuthnCredential)
      → run (finish_add_credential library d flow_id c user) db ≡ (ok cred, db')
      → Finished library flow_id db db'

-- Every finish of a ceremony on the flow raises.
abbrev pub IsClosed : Library → String → Database → Type 0
IsClosed library flow_id db =
    (d : Draws) (c : Fields) (user : User)
    → Raises (run (finish_registration library d flow_id c) db).0
      × Raises (run (finish_authentication library d flow_id c) db).0
      × Raises (run (finish_add_credential library d flow_id c user) db).0

module _ (library : Library) (flow_id : String) where
  Finished-IsSpent : (db db' : Database) → Finished library flow_id db db' → IsSpent flow_id db'
  unfolding record_use
  Finished-IsSpent db db' (registered d c user h) =
      let (u, e, left) = run-Returns (finish_registration library d flow_id c) db db' user h in
      let r = finish_registration-ok library d flow_id c (opened db) e in
      subst (IsSpent flow_id) (sym (ap (λ (s : Session). s.committed) r.left) ∙ left)
        (valid-IsSpent (d.clock 0) (d.clock 1) flow_id _ db r.flow r.valid)
  Finished-IsSpent db db' (logged_in d c user h) =
      let (u, e, left) = run-Returns (finish_authentication library d flow_id c) db db' user h in
      let r = finish_authentication-ok library d flow_id c (opened db) e in
      subst (IsSpent flow_id) (sym (ap (λ (s : Session). s.committed) r.left) ∙ left)
        (valid-IsSpent (d.clock 0) (d.clock 1) flow_id _ db r.flow r.valid)
  Finished-IsSpent db db' (added d c user cred h) =
      let (u, e, left) =
        run-Returns (finish_add_credential library d flow_id c user) db db' cred h in
      let r = finish_add_credential-ok library d flow_id c user (opened db) e in
      subst (IsSpent flow_id) (sym (ap (λ (s : Session). s.committed) r.left) ∙ left)
        (valid-IsSpent (d.clock 0) (d.clock 1) flow_id _ db r.flow r.valid)

  IsSpent-IsClosed : (db : Database) → IsSpent flow_id db → IsClosed library flow_id db
  unfolding finish_registration finish_authentication finish_add_credential
  IsSpent-IsClosed db h d c user = (
    Raises-bind (get_valid_flow (d.clock 0) flow_id "register") _ (opened db)
        (get_valid_flow-IsSpent (d.clock 0) flow_id "register" (opened db) h),
    Raises-bind (get_valid_flow (d.clock 0) flow_id "authenticate") _ (opened db)
        (get_valid_flow-IsSpent (d.clock 0) flow_id "authenticate" (opened db) h),
    Raises-bind (get_valid_flow (d.clock 0) flow_id "add_credential") _ (opened db)
        (get_valid_flow-IsSpent (d.clock 0) flow_id "add_credential" (opened db) h),
  )

  -- After a ceremony that returned on a flow, and any calls of the service that give no new flow
  -- its identifier, every finish of a ceremony on that flow raises.
  pub flow_serves_once :
      (db db' : Database) (later : List Call)
      → Finished library flow_id db db'
      → AllFresh (λ id. id ≢ flow_id) later
      → IsClosed library flow_id (history library db' later)
  flow_serves_once db db' later done fresh = IsSpent-IsClosed _ (
      history-keeps (IsSpent-survives flow_id) library db' later fresh
        (Finished-IsSpent db db' done))
