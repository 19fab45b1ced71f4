-- ===== src/Cli/Users.antt =====
-- The commands on users of src/h4ckath0n/cli.py. Offsets and limits are not negative.
use h4ckrth0n.Prelude.{
  ℕ, String, Bool, ◌&&◌, ◌||◌, none, some, List, [], ◌∷◌, ◌==◌, is_none, select, count,
}
use h4ckrth0n.Models.{Time, User}
use h4ckrth0n.Db.Session.{Tx, ◌>>=◌, pure, query}
use h4ckrth0n.Passkeys.Ceremonies.{is_active}
use h4ckrth0n.Cli.Scopes.{normalize_scopes, with_scopes, without_scopes}
use h4ckrth0n.Cli.{Exit, output, Selector, require_yes, with_user, change_user}

-- `stmt.offset(offset).limit(limit)`
unfoldable pub drop_rows {ℓ} : {A : Type ℓ} → ℕ → List A → List A
drop_rows n [] = []
drop_rows ℕ.zero (x ∷ xs) = x ∷ xs
drop_rows (ℕ.suc n) (x ∷ xs) = drop_rows n xs

unfoldable pub take_rows {ℓ} : {A : Type ℓ} → ℕ → List A → List A
take_rows n [] = []
take_rows ℕ.zero (x ∷ xs) = []
take_rows (ℕ.suc n) (x ∷ xs) = x ∷ take_rows n xs

unfoldable pub cmd_users_list : Bool → ℕ → ℕ → Tx (Exit (List User))
unfolding drop_rows take_rows
cmd_users_list include_disabled offset limit = do
  users ← query (λ db. select (λ u. include_disabled || is_none u.disabled_at) db.users)
  pure (output (take_rows limit (drop_rows offset users)))

-- What `users show` adds to the columns of the user.
pub record UserSummary : Type 0 where
  pub user : User
  pub devices_total : ℕ
  pub devices_active : ℕ
  pub passkeys_total : ℕ
  pub passkeys_active : ℕ

unfoldable pub cmd_users_show : Selector → Tx (Exit UserSummary)
unfolding with_user
cmd_users_show args = with_user args λ user. do
  devices_total ← query (λ db. count (λ d. d.user_id == user.id) db.devices)
  devices_active ←
      query (λ db. count (λ d. d.user_id == user.id && is_none d.revoked_at) db.devices)
  passkeys_total ← query (λ db. count (λ c. c.user_id == user.id) db.credentials)
  passkeys_active ← query (λ db. count (is_active user.id) db.credentials)
  pure (
      output (record {
        user = user;
        devices_total = devices_total;
        devices_active = devices_active;
        passkeys_total = passkeys_total;
        passkeys_active = passkeys_active;
      }))

unfoldable pub cmd_users_set_role : Bool → Selector → String → Tx (Exit User)
unfolding require_yes with_user change_user
cmd_users_set_role confirmed args role =
    require_yes confirmed (with_user args (change_user (λ u. record u { role = role })))

unfoldable pub cmd_users_disable : Bool → Selector → Time → Tx (Exit User)
unfolding require_yes with_user change_user
cmd_users_disable confirmed args now =
    require_yes confirmed (with_user args (change_user (λ u. record u { disabled_at = some now })))

unfoldable pub cmd_users_enable : Bool → Selector → Tx (Exit User)
unfolding require_yes with_user change_user
cmd_users_enable confirmed args =
    require_yes confirmed (with_user args (change_user (λ u. record u { disabled_at = none })))

-- A Python set of texts is read in an order of its own, which is an argument.
unfoldable pub cmd_users_scopes_add :
    (List String → List String) → Bool → Selector → List String → Tx (Exit User)
unfolding require_yes with_user change_user
cmd_users_scopes_add order confirmed args scope = require_yes confirmed (
    with_user args
      λ user. change_user (λ u. record u { scopes = with_scopes order scope user.scopes }) user)

unfoldable pub cmd_users_scopes_remove : Bool → Selector → List String → Tx (Exit User)
unfolding require_yes with_user change_user
cmd_users_scopes_remove confirmed args scope = require_yes confirmed (
    with_user args
      λ user. change_user (λ u. record u { scopes = without_scopes scope user.scopes }) user)

unfoldable pub cmd_users_scopes_set : Bool → Selector → String → Tx (Exit User)
unfolding require_yes with_user change_user
cmd_users_scopes_set confirmed args scopes =
    require_yes confirmed
      (with_user args (change_user (λ u. record u { scopes = normalize_scopes scopes })))
