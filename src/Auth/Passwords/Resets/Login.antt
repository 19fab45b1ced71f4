-- ===== src/Auth/Passwords/Resets/Login.antt =====
-- After a reset the account logs in with the new password.
use h4ckrth0n.Prelude.{
  ◌≡◌, ◌≢◌, refl, sym, ap, ◌∙◌, subst, String, true, some, ◌==◌, eq_iff, is_text,
}
use h4ckrth0n.Prelude.Rows.{first-update, changed}
use h4ckrth0n.Models.{User, PasswordResetToken}
use h4ckrth0n.Result.{ok}
use h4ckrth0n.Db.{Database}
use h4ckrth0n.Db.Session.{Session, opened, run}
use h4ckrth0n.Db.Session.Laws.{run-Returns}
use h4ckrth0n.Auth.Passwords.{
  Argon, Crypto, Draws, matches, set_password, mark_used, user_by_email, confirm_password_reset,
  authenticate_user,
}
use h4ckrth0n.Auth.Passwords.Logins.{argon-ready, argon_injective, authenticate-found}
use h4ckrth0n.Auth.Passwords.Resets.{confirm_password_reset-ok}

-- The account with the hash of a password.
abbrev pub with_password : String → User → User
with_password hash user = record user { password_hash = some hash }

set_password-found :
    (email hash : String) (account owner : User) (db : Database)
    → account.id ≡ owner.id
    → user_by_email email db ≡ some account
    → user_by_email email (set_password hash owner db) ≡ some (with_password hash account)
unfolding set_password
set_password-found email hash account owner db same found =
    let hit : (account.id == owner.id) ≡ true = (eq_iff account.id owner.id).1 same in
    first-update (λ u. is_text u.email email) (λ u. u.id == owner.id) (with_password hash) db.users
      (λ u. refl)
    ∙ rw (found, changed, hit)

mark_used-found :
    (email : String) (db : Database) (r : PasswordResetToken)
    → user_by_email email (mark_used r db) ≡ user_by_email email db
unfolding mark_used
mark_used-found email db r = refl

-- After a reset that returned, the account whose address names the user that it returned logs in
-- with the new password. Argon2's hash of that password is not empty and verifies.
pub reset_logs_in :
    (crypto : Crypto) (argon : Argon) (d : Draws) (raw_token password email : String)
    (db db' : Database) (user account : User)
    → crypto.argon ≡ some argon
    → argon.hash password ≢ ""
    → argon.verify (argon.hash password) password ≡ matches
    → user_by_email email db ≡ some account
    → account.id ≡ user.id
    → run (confirm_password_reset crypto d raw_token password) db ≡ (ok user, db')
    → run (authenticate_user crypto email password) db'
      ≡ (ok (some (with_password (argon.hash password) account)), db')
reset_logs_in crypto argon d raw_token password email db db' user account extra full verifies named
      same h =
    let (u, r, left) =
      run-Returns (confirm_password_reset crypto d raw_token password) db db' user h in
    let reset = confirm_password_reset-ok crypto d raw_token password (opened db) r in
    let ready = argon-ready crypto argon extra in
    let e : reset.argon ≡ argon = argon_injective _ _ (sym reset.extra ∙ ready) in
    let hash : reset.argon.hash password ≡ argon.hash password =
      ap (λ (a : Argon). a.hash password) e in
    let owner : account.id ≡ reset.owner.id = same ∙ ap (λ (v : User). v.id) reset.returned in
    let found =
      set_password-found email (argon.hash password) account reset.owner (mark_used reset.token db)
        owner (mark_used-found email db reset.token ∙ named) in
    subst
      (λ db.
        run (authenticate_user crypto email password) db
        ≡ (ok (some (with_password (argon.hash password) account)), db))
      (sym (
          ap (λ (s : Session). s.committed) reset.left
          ∙ ap (λ h. set_password h reset.owner (mark_used reset.token db)) hash)
        ∙ left)
      (authenticate-found crypto argon email password _ _ ready found refl full verifies)
