-- ===== src/Passkeys/Router/Answers.antt =====
-- What the passkey endpoints answer.
use h4ckrth0n.Prelude.{
  ◌≡◌, refl, ◌∙◌, String, true, Option, none, some, first, count, is_none, ltb, Bool-cases,
  Option-cases, inl, inr, if◌then◌else◌,
}
use h4ckrth0n.Json.{str}
use h4ckrth0n.Models.{Time, User, WebAuthnCredential}
use h4ckrth0n.Config.{Settings}
use h4ckrth0n.Result.{
  Result, ok, err, value_error, runtime_error, packaged_migrations_error, attribute_error,
  integrity_error, last_passkey_error, library_error,
}
use h4ckrth0n.Db.{Database, consistent}
use h4ckrth0n.Db.Session.{Session, run, opened}
use h4ckrth0n.Http.{Http, responds, http_exception}
use h4ckrth0n.Endpoint.{serve, answered, go_on, ◌>>=◌}
use h4ckrth0n.Auth.Jwt.{Library as TokenLibrary, auth_error, verify_device_jwt, aud_http}
use h4ckrth0n.Auth.Dependencies.{or_401, get_auth_context, require_user}
use h4ckrth0n.Auth.Passwords.{Crypto, Draws as DeviceDraws}
use h4ckrth0n.Passkeys.WebAuthn.{Library}
use h4ckrth0n.Passkeys.Flows.{Draws}
use h4ckrth0n.Passkeys.Ceremonies.{is_active}
use h4ckrth0n.Passkeys.Management.{revoke_passkey, set_revoked}
use h4ckrth0n.Passkeys.Management.LastPasskey.{
  names, revoke_active_passkey, revoke_missing, revoke_revoked,
}
use h4ckrth0n.Passkeys.Router.{
  FinishRequest, add_start, add_finish, passkeys_list, passkey_revoke, passkey_rename,
  last_passkey_detail, revoke_errors,
}

refused :
    (tokens : TokenLibrary) (token detail : String) (db later : Database)
    → verify_device_jwt tokens token aud_http db ≡ auth_error detail
    → require_user tokens token db later ≡ http_exception 401 (str detail)
unfolding require_user get_auth_context
refused tokens token detail db later h = rw (h, or_401)

-- A request whose token is refused is answered with 401 and the reason by every endpoint of a
-- signed-in user, and changes nothing.
pub refused_token_changes_nothing :
    (tokens : TokenLibrary) (library : Library) (crypto : Crypto) (d : Draws) (e : DeviceDraws)
    (settings : Settings) (body : FinishRequest) (now : Time) (key_id token detail : String)
    (name : Option String) (db later : Database)
    → verify_device_jwt tokens token aud_http db ≡ auth_error detail
    → (serve (add_start library crypto d e (require_user tokens token db later) settings) later
        ≡ (http_exception 401 (str detail), later))
      × (serve (add_finish library crypto d e (require_user tokens token db later) body) later
          ≡ (http_exception 401 (str detail), later))
      × (serve (passkeys_list (require_user tokens token db later)) later
          ≡ (http_exception 401 (str detail), later))
      × (serve (passkey_revoke now (require_user tokens token db later) key_id) later
          ≡ (http_exception 401 (str detail), later))
      × (serve (passkey_rename (require_user tokens token db later) key_id name) later
          ≡ (http_exception 401 (str detail), later))
unfolding add_start add_finish passkeys_list passkey_revoke passkey_rename ◌>>=◌
refused_token_changes_nothing tokens library crypto d e settings body now key_id token detail name
      db later h =
    let r = refused tokens token detail db later h in (rw r, rw r, rw r, rw r, rw r)

-- The answers of a revocation, on a database that keeps its keys.
abbrev pub Decided : Time → User → Database → Option WebAuthnCredential → Http String × Database
Decided now user db none = (http_exception 404 (str "Credential not found"), db)
Decided now user db (some cred) =
    if is_none cred.revoked_at
    then (if ltb 1 (count (is_active user.id) db.credentials)
        then (responds "Passkey revoked", set_revoked now cred db)
        else (http_exception 409 last_passkey_detail, db))
    else (http_exception 404 (str "Credential already revoked"), db)

abbrev revoke_answer : Result (Unit {0}) → Http String
revoke_answer (ok v) = responds "Passkey revoked"
revoke_answer (err e) = revoke_errors e

-- What is left of an answer when the request is over.
abbrev closed : Http String × Session → Http String × Database
closed x = (x.0, x.1.committed)

revoke_answers_at :
    (r : Result (Unit {0})) (s : Session)
    → closed (go_on (answered revoke_errors r) (λ v t. (responds "Passkey revoked", t)) s)
      ≡ (revoke_answer r, s.committed)
revoke_answers_at (ok v) s = refl
revoke_answers_at (err (value_error m)) s = refl
revoke_answers_at (err (runtime_error m)) s = refl
revoke_answers_at (err (attribute_error m)) s = refl
revoke_answers_at (err packaged_migrations_error) s = refl
revoke_answers_at (err integrity_error) s = refl
revoke_answers_at (err last_passkey_error) s = refl
revoke_answers_at (err (library_error m)) s = refl

revoke_answers :
    (now : Time) (user : User) (key_id : String) (db db' : Database) (r : Result (Unit {0}))
    → run (revoke_passkey now user key_id) db ≡ (r, db')
    → serve (passkey_revoke now (responds user) key_id) db ≡ (revoke_answer r, db')
unfolding passkey_revoke ◌>>=◌
revoke_answers now user key_id db db' r h =
    let m = revoke_passkey now user key_id (opened db) in
    revoke_answers_at m.0 m.1 ∙ (λ i. (revoke_answer (h i).0, (h i).1))

-- On a database that keeps its keys, the revocation of a passkey by a signed-in user is answered by
-- 404 where the user has no passkey of that key, or it is revoked already; by 409 where it is the
-- user's last active one; and else it is confirmed, and the passkey is revoked. Only then is a row
-- changed.
pub revocation_decided :
    (now : Time) (user : User) (key_id : String) (db : Database)
    → consistent db ≡ true
    → serve (passkey_revoke now (responds user) key_id) db
      ≡ Decided now user db (first (names user key_id) db.credentials)
revocation_decided now user key_id db c =
    elim (Option-cases (first (names user key_id) db.credentials)) [
      | inl e ↦
          rw (e, Decided)
            (revoke_answers now user key_id db db _ (revoke_missing now user key_id db e))
      | inr (cred, e) ↦ elim (Bool-cases (is_none cred.revoked_at)) [
        | inr r ↦
            rw (e, Decided, r)
              (revoke_answers now user key_id db db _ (revoke_revoked now user key_id db cred e r))
        | inl r ↦
            let decided = revoke_active_passkey now user key_id db cred c e r in
            elim (Bool-cases (ltb 1 (count (is_active user.id) db.credentials))) [
              | inl m ↦
                  rw (e, Decided, r, m)
                    (revoke_answers now user key_id db _ _ (let g = rw m at decided in g))
              | inr m ↦
                  rw (e, Decided, r, m)
                    (revoke_answers now user key_id db _ _ (let g = rw m at decided in g))
            ]
      ]
    ]
