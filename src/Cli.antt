-- ===== src/Cli.antt =====
-- src/h4ckath0n/cli.py: the operator's commands on users, devices and passkeys. A command takes what
-- `argparse` has read from its flags, and a session; it ends with what it prints, which is exit code
-- 0, or with an exit code and the lines on the error stream.
pub mod Scopes
pub mod Users
pub mod Keys
pub mod Effects
pub mod LastKey
pub mod Migrate
pub mod Main
use h4ckrth0n.Prelude.{
  ℕ, String, Bool, true, false, not, ◌&&◌, ◌||◌, Option, none, some, List, [], ◌∷◌, map, length,
  ◌==◌, leb, is_none, is_text, if◌then◌else◌, first, select, count, update,
}
use h4ckrth0n.Models.{Time, User, Device, WebAuthnCredential}
use h4ckrth0n.Db.{Database}
use h4ckrth0n.Db.Session.{Tx, ◌>>=◌, ◌>>◌, pure, query, modify, commit}
use h4ckrth0n.Passkeys.Ceremonies.{is_active}
use h4ckrth0n.Passkeys.Management.{set_revoked}
use h4ckrth0n.Cli.Scopes.{normalize_scopes, with_scopes, without_scopes}

pub data Exit {ℓ} (A : Type ℓ) : Type ℓ where
  output : A → Exit A
  exits : ℕ → List String → Exit A

abbrev pub exit_not_found : ℕ
exit_not_found = 1

abbrev pub exit_bad_args : ℕ
exit_bad_args = 2

abbrev pub exit_last_passkey : ℕ
exit_last_passkey = 3

-- The flags `--user-id` and `--email`.
pub record Selector : Type 0 where
  pub user_id : Option String
  pub email : Option String

-- A flag that is given and not empty.
abbrev pub is_given : Option String → Bool
is_given none = false
is_given (some s) = not (s == "")

unfoldable pub require_yes {ℓ} : {A : Type ℓ} → Bool → Tx (Exit A) → Tx (Exit A)
require_yes confirmed command =
    if confirmed
    then command
    else pure (exits exit_bad_args ("--yes is required for mutating commands" ∷ []))

unfoldable pub resolve_user : Selector → Database → Option User
resolve_user args db =
    if is_given args.user_id && is_given args.email
    then none
    else if not (is_given args.user_id) && not (is_given args.email)
    then none
    else if is_given args.user_id
    then first (λ u. is_text args.user_id u.id) db.users
    else first (λ u. is_email args.email u.email) db.users
  where
    is_email : Option String → Option String → Bool
    is_email none e = false
    is_email (some s) e = is_text e s

abbrev pub specify : String
specify = "specify exactly one of --user-id or --email"

module _ {ℓ} {A : Type ℓ} where
  unfoldable pub on_user : Selector → (User → Tx (Exit A)) → Option User → Tx (Exit A)
  on_user args command (some user) = command user
  on_user args command none =
      if not (is_given args.user_id || is_given args.email)
      then pure (exits exit_bad_args (specify ∷ []))
      else if is_given args.user_id && is_given args.email
      then pure (exits exit_not_found (specify ∷ "user not found" ∷ []))
      else pure (exits exit_not_found ("user not found" ∷ []))

  -- The start of every command on a user.
  unfoldable pub with_user : Selector → (User → Tx (Exit A)) → Tx (Exit A)
  unfolding resolve_user on_user
  with_user args command = do row ← query (resolve_user args); on_user args command row

-- `user.… = …; session.commit(); session.refresh(user)`, and the user that is printed
unfoldable pub change_user : (User → User) → User → Tx (Exit User)
change_user change user = do
  modify (λ db. record db { users = update (λ u. u.id == user.id) change db.users })
  commit
  pure (output (change user))
