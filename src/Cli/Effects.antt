-- ===== src/Cli/Effects.antt =====
-- What the operator's commands do to the rest of the program.
use h4ckrth0n.Prelude.{
  ◌≡◌, ◌≢◌, refl, sym, ◌∙◌, subst, inl, inr, Bool-cases, String, true, false, Option, none, some,
  List, [], ◌∷◌, ◌==◌, eq_iff, eq_refl, first, is_none,
}
use h4ckrth0n.Prelude.Rows.{first-update, changed}
use h4ckrth0n.Json.{str, truthy, equals_text}
use h4ckrth0n.Models.{Time, Device}
use h4ckrth0n.Result.{ok}
use h4ckrth0n.Db.{Database}
use h4ckrth0n.Db.Session.{Session, Tx, ◌>>=◌, opened, run}
use h4ckrth0n.Db.Session.Laws.{Returns, of_query, of_modify, of_commit, pure-ok, run-Returns}
use h4ckrth0n.Auth.Jwt.{
  Library, auth_error, get_unverified_kid, verify_device_jwt, or_error, require, ◌>>=◌ as ◌and◌,
}
use h4ckrth0n.Cli.{Exit, output, exits, exit_bad_args, Selector, require_yes}
use h4ckrth0n.Cli.Users.{
  cmd_users_set_role, cmd_users_disable, cmd_users_enable, cmd_users_scopes_add,
  cmd_users_scopes_remove, cmd_users_scopes_set,
}
use h4ckrth0n.Cli.Keys.{
  set_device_revoked, commit_device, revoke_device, cmd_devices_revoke, cmd_passkeys_revoke,
}

abbrev pub Refused {ℓ} : {A : Type ℓ} → Tx (Exit A) → Database → Type ℓ
Refused command db =
    run command db ≡ (ok (exits exit_bad_args ("--yes is required for mutating commands" ∷ [])), db)

-- Without `--yes` every command that changes rows ends with the exit code of bad arguments and
-- changes nothing.
pub unconfirmed_changes_nothing :
    (db : Database) (args : Selector) (order : List String → List String) (now : Time)
    (role scopes device_id key_id : String) (scope : List String)
    → Refused (cmd_users_set_role false args role) db
      × Refused (cmd_users_disable false args now) db
      × Refused (cmd_users_enable false args) db
      × Refused (cmd_users_scopes_add order false args scope) db
      × Refused (cmd_users_scopes_remove false args scope) db
      × Refused (cmd_users_scopes_set false args scopes) db
      × Refused (cmd_devices_revoke now false device_id) db
      × Refused (cmd_passkeys_revoke now false key_id) db
unfolding cmd_users_set_role cmd_users_disable cmd_users_enable cmd_users_scopes_add
    cmd_users_scopes_remove cmd_users_scopes_set cmd_devices_revoke cmd_passkeys_revoke ◌>>=◌
unconfirmed_changes_nothing db args order now role scopes device_id key_id scope =
    (refl, refl, refl, refl, refl, refl, refl, refl)

-- The first device of an identifier is revoked.
abbrev IsRevoked : String → Database → Type 0
IsRevoked device_id db =
    (d : Device) × (first (λ d. d.id == device_id) db.devices ≡ some d)
    × (is_none d.revoked_at ≡ false)

set_device_revoked-found :
    (now : Time) (device : Device) (device_id : String) (db : Database)
    → first (λ d. d.id == device_id) db.devices ≡ some device
    → IsRevoked device_id (set_device_revoked now device db)
unfolding set_device_revoked
set_device_revoked-found now device device_id db h = (
  record device { revoked_at = some now },
  first-update (λ d. d.id == device_id) (λ d. d.id == device.id)
        (λ d. record d { revoked_at = some now }) db.devices (λ d. refl)
      ∙ rw (h, changed, eq_refl device.id),
  refl,
)

revoke_device-ok :
    (now : Time) (o : Option Device) (device_id : String) (db : Database) {d : Device} {u : Session}
    → first (λ d. d.id == device_id) db.devices ≡ o
    → Returns (revoke_device now o (opened db)) (output d) u
    → IsRevoked device_id u.committed
unfolding revoke_device commit_device
revoke_device-ok now none device_id db e h = absurd (let same = (pure-ok _ _ h).0 in cc)
revoke_device-ok now (some device) device_id db e h =
    elim (Bool-cases (is_none device.revoked_at)) [
      | inl active ↦
          of_modify (set_device_revoked now device) _ (opened db) (let g = rw active at h in g)
            λ h₁. of_commit _ _ h₁ λ checked h₂.
              subst (λ (s : Session). IsRevoked device_id s.committed) (sym (pure-ok _ _ h₂).1)
                (set_device_revoked-found now device device_id db e)
      | inr revoked ↦
          subst (λ (s : Session). IsRevoked device_id s.committed)
            (sym (pure-ok _ _ (let g = rw revoked at h in g)).1) (device, e, revoked)
    ]

devices_revoke-ok :
    (now : Time) (device_id : String) (db : Database) {d : Device} {u : Session}
    → Returns (cmd_devices_revoke now true device_id (opened db)) (output d) u
    → IsRevoked device_id u.committed
unfolding cmd_devices_revoke require_yes
devices_revoke-ok now device_id db h =
    of_query (λ db. first (λ d. d.id == device_id) db.devices) _ (opened db) h
      λ h₁. revoke_device-ok now _ device_id db refl h₁

-- The token of a revoked device.
IsRevoked-refused :
    (library : Library) (raw_jwt aud device_id : String) (db : Database)
    → device_id ≢ ""
    → get_unverified_kid library raw_jwt ≡ some (str device_id)
    → IsRevoked device_id db
    → verify_device_jwt library raw_jwt aud db ≡ auth_error "Device revoked"
unfolding verify_device_jwt ◌and◌ truthy equals_text
IsRevoked-refused library raw_jwt aud device_id db full named r =
    let blank : (device_id == "") ≡ false = elim (Bool-cases (device_id == "")) [
      | inl e ↦ absurd (full ((eq_iff device_id "").0 e))
      | inr e ↦ e
    ] in
    let (device, found, revoked) = r in rw (named, or_error, blank, require, found, revoked)

-- After the operator has revoked a device, every token that names it is refused as that of a revoked
-- device, whatever else it says.
pub revoked_device_refused :
    (library : Library) (raw_jwt aud device_id : String) (now : Time) (db db' : Database)
    (device : Device)
    → device_id ≢ ""
    → get_unverified_kid library raw_jwt ≡ some (str device_id)
    → run (cmd_devices_revoke now true device_id) db ≡ (ok (output device), db')
    → verify_device_jwt library raw_jwt aud db' ≡ auth_error "Device revoked"
revoked_device_refused library raw_jwt aud device_id now db db' device full named h =
    let (u, e, left) =
      run-Returns (cmd_devices_revoke now true device_id) db db' (output device) h in
    IsRevoked-refused library raw_jwt aud device_id db' full named
      (subst (IsRevoked device_id) left (devices_revoke-ok now device_id db e))
