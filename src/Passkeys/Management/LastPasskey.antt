-- ===== src/Passkeys/Management/LastPasskey.antt =====
-- Revoking takes exactly one active passkey away, and never the last one.
use h4ckrth0n.Prelude.{
  ℕ, ◌+◌, ◌<◌, ◌≡◌, refl, ◌&&◌, not, String, Bool, true, false, some, none, arith, ◌==◌, leb, ltb,
  is_none, if◌then◌else◌, first, count, map, distinct,
}
use h4ckrth0n.Prelude.Rows.{map-update, count-update_one}
use h4ckrth0n.Models.{Time, User, WebAuthnCredential}
use h4ckrth0n.Result.{ok, err, value_error, last_passkey_error}
use h4ckrth0n.Db.{Database, consistent, credentials_consistent}
use h4ckrth0n.Db.Session.{Session, opened, run, or_rollback, ◌>>=◌, commit, found, guard}
use h4ckrth0n.Db.Session.Laws.{
  Returns, of_query, of_found, of_guard, of_modify, commit-ok, or_rollback-ok,
}
use h4ckrth0n.Passkeys.Ceremonies.{is_active}
use h4ckrth0n.Passkeys.Management.{revoke_passkey, revoke_in_lock, set_revoked}

-- The credential that a key of a user names.
abbrev pub names : User → String → WebAuthnCredential → Bool
names user key_id c = c.id == key_id && c.user_id == user.id

-- A revocation that returned.
pub record Revoked (now : Time) (user : User) (key_id : String) (s u : Session) : Type 0 where
  pub cred : WebAuthnCredential
  pub chosen : first (names user key_id) s.working.credentials ≡ some cred
  pub active : is_none cred.revoked_at ≡ true
  pub more : 1 < count (is_active user.id) s.working.credentials
  pub checked : consistent (set_revoked now cred s.working) ≡ true
  pub left : u ≡ opened (set_revoked now cred s.working)

pub more_than_one : (n : ℕ) → not (leb n 1) ≡ true → 1 < n
more_than_one n h = ground arith

revoke_in_lock-ok :
    (now : Time) (user : User) (key_id : String) (s : Session) {v : Unit {0}} {u : Session}
    → Returns (revoke_in_lock now user key_id s) v u
    → Revoked now user key_id s u
unfolding revoke_in_lock
revoke_in_lock-ok now user key_id s h = of_query _ _ s h λ h₁. of_found _ _ _ s h₁ λ cred chosen h₂.
    of_guard _ _ _ s h₂ λ active h₃. of_query _ _ s h₃ λ h₄. of_guard _ _ _ s h₄ λ more h₅.
      of_modify _ _ s h₅ λ h₆.
        let (checked, left) = commit-ok _ h₆ in
        record {
          cred = cred;
          chosen = chosen;
          active = active;
          more = more_than_one _ more;
          checked = checked;
          left = left;
        }

pub revoke_passkey-ok :
    (now : Time) (user : User) (key_id : String) (s : Session) {v : Unit {0}} {u : Session}
    → Returns (revoke_passkey now user key_id s) v u
    → Revoked now user key_id s u
unfolding revoke_passkey
revoke_passkey-ok now user key_id s h =
    revoke_in_lock-ok now user key_id s (or_rollback-ok (revoke_in_lock now user key_id) s h)

-- Revoking changes no key, so what the database accepts after it has distinct keys before it.
pub distinct_before :
    (now : Time) (cred : WebAuthnCredential) (db : Database)
    → consistent (set_revoked now cred db) ≡ true
    → distinct (map (λ c. c.id) db.credentials) ≡ true
unfolding consistent credentials_consistent set_revoked
distinct_before now cred db h =
    let keys =
      map-update (λ (c : WebAuthnCredential). c.id) (λ c. c.id == cred.id)
        (λ c. record c { revoked_at = some now }) db.credentials (λ x. refl) in
    ground (arith, keys)

-- The count of the active credentials of any user after one credential is revoked.
pub count-set_revoked :
    (now : Time) (user : User) (key_id owner : String) (cred : WebAuthnCredential) (db : Database)
    → distinct (map (λ c. c.id) db.credentials) ≡ true
    → first (names user key_id) db.credentials ≡ some cred
    → count (is_active owner) (set_revoked now cred db).credentials
        + (if is_active owner cred then 1 else 0)
      ≡ count (is_active owner) db.credentials
unfolding set_revoked is_active
count-set_revoked now user key_id owner cred db d h =
    let n =
      count-update_one (λ (c : WebAuthnCredential). c.id) (is_active owner) (names user key_id)
        (λ c. record c { revoked_at = some now }) db.credentials cred d h in
    ground (arith, n)

-- What a revocation does to the number of active passkeys of its user and of another one.
abbrev pub TakesOne : String → String → Database → Database → Type 0
TakesOne user_id other db db' =
    (count (is_active user_id) db'.credentials + 1 ≡ count (is_active user_id) db.credentials)
    × (0 < count (is_active user_id) db'.credentials)
    × (count (is_active other) db'.credentials ≡ count (is_active other) db.credentials)

-- Revoking changes no key column.
pub consistent-set_revoked :
    (now : Time) (cred : WebAuthnCredential) (db : Database)
    → consistent (set_revoked now cred db) ≡ consistent db
unfolding consistent credentials_consistent set_revoked
consistent-set_revoked now cred db =
    let revoke = λ (c : WebAuthnCredential). record c { revoked_at = some now } in
    let ids =
      map-update (λ (c : WebAuthnCredential). c.id) (λ c. c.id == cred.id) revoke db.credentials
        (λ x. refl) in
    let credential_ids =
      map-update (λ (c : WebAuthnCredential). c.credential_id) (λ c. c.id == cred.id) revoke
        db.credentials (λ x. refl) in
    rw (ids, credential_ids)

-- On a database that keeps its keys, the revocation of an active passkey of the user goes through
-- exactly if the user has another one; otherwise it raises `LastPasskeyError` and changes nothing.
pub revoke_active_passkey :
    (now : Time) (user : User) (key_id : String) (db : Database) (cred : WebAuthnCredential)
    → consistent db ≡ true
    → first (names user key_id) db.credentials ≡ some cred
    → is_none cred.revoked_at ≡ true
    → run (revoke_passkey now user key_id) db ≡ (
        if ltb 1 (count (is_active user.id) db.credentials)
        then (ok tt, set_revoked now cred db)
        else (err last_passkey_error, db))
unfolding revoke_passkey revoke_in_lock or_rollback ◌>>=◌ commit
revoke_active_passkey now user key_id db cred c chosen active =
    rw (chosen, found, active, guard) (ground (arith, consistent-set_revoked now cred db))

-- The two other ends: no credential of the user has the key, or it is revoked.
pub revoke_missing :
    (now : Time) (user : User) (key_id : String) (db : Database)
    → first (names user key_id) db.credentials ≡ none
    → run (revoke_passkey now user key_id) db ≡ (err (value_error "Credential not found"), db)
unfolding revoke_passkey revoke_in_lock or_rollback ◌>>=◌
revoke_missing now user key_id db h = rw (h, found)

pub revoke_revoked :
    (now : Time) (user : User) (key_id : String) (db : Database) (cred : WebAuthnCredential)
    → first (names user key_id) db.credentials ≡ some cred
    → is_none cred.revoked_at ≡ false
    → run (revoke_passkey now user key_id) db ≡ (err (value_error "Credential already revoked"), db)
unfolding revoke_passkey revoke_in_lock or_rollback ◌>>=◌
revoke_revoked now user key_id db cred h r = rw (h, found, r, guard)
