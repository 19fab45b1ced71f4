-- ===== src/Cli/Keys.antt =====
-- The commands on devices and passkeys of src/h4ckath0n/cli.py.
use h4ckrth0n.Prelude.{
  ℕ, String, Bool, ◌&&◌, ◌||◌, Option, none, some, List, [], ◌∷◌, ◌==◌, leb, is_none, if◌then◌else◌,
  first, select, count, update,
}
use h4ckrth0n.Models.{Time, Device, WebAuthnCredential}
use h4ckrth0n.Db.{Database}
use h4ckrth0n.Db.Session.{Tx, ◌>>=◌, ◌>>◌, pure, query, modify, commit}
use h4ckrth0n.Passkeys.Ceremonies.{is_active}
use h4ckrth0n.Passkeys.Management.{set_revoked}
use h4ckrth0n.Cli.{
  Exit, output, exits, exit_not_found, exit_bad_args, exit_last_passkey, Selector, require_yes,
  with_user,
}

unfoldable pub cmd_devices_list : Bool → Selector → Tx (Exit (List Device))
unfolding with_user
cmd_devices_list include_revoked args = with_user args λ user. do
  devices ← query (λ db.
      select (λ d. d.user_id == user.id && (include_revoked || is_none d.revoked_at)) db.devices)
  pure (output devices)

unfoldable pub set_device_revoked : Time → Device → Database → Database
set_device_revoked now device db = record db {
  devices = update (λ d. d.id == device.id) (λ d. record d { revoked_at = some now }) db.devices;
}

unfoldable pub commit_device : Time → Device → Tx (Exit Device)
unfolding set_device_revoked
commit_device now device = do
  modify (set_device_revoked now device)
  commit
  pure (output (record device { revoked_at = some now }))

unfoldable pub revoke_device : Time → Option Device → Tx (Exit Device)
unfolding commit_device
revoke_device now none = pure (exits exit_not_found ("device not found" ∷ []))
revoke_device now (some device) =
    if is_none device.revoked_at then commit_device now device else pure (output device)

unfoldable pub cmd_devices_revoke : Time → Bool → String → Tx (Exit Device)
unfolding require_yes revoke_device
cmd_devices_revoke now confirmed device_id =
    require_yes confirmed
      do row ← query (λ db. first (λ d. d.id == device_id) db.devices); revoke_device now row

unfoldable pub cmd_passkeys_list : Bool → Selector → Tx (Exit (List WebAuthnCredential))
unfolding with_user
cmd_passkeys_list include_revoked args = with_user args λ user. do
  creds ← query (λ db.
      select (λ c. c.user_id == user.id && (include_revoked || is_none c.revoked_at))
        db.credentials)
  pure (output creds)

unfoldable pub commit_key : Time → WebAuthnCredential → Tx (Exit WebAuthnCredential)
unfolding set_revoked
commit_key now cred = do
  modify (set_revoked now cred)
  commit
  pure (output (record cred { revoked_at = some now }))

unfoldable pub revoke_key : Time → ℕ → WebAuthnCredential → Tx (Exit WebAuthnCredential)
unfolding commit_key
revoke_key now active_count cred =
    if leb active_count 1
    then pure (exits exit_last_passkey ("refusing to revoke the last active passkey" ∷ []))
    else commit_key now cred

unfoldable pub revoke_found : Time → Option WebAuthnCredential → Tx (Exit WebAuthnCredential)
unfolding revoke_key
revoke_found now none = pure (exits exit_not_found ("passkey not found" ∷ []))
revoke_found now (some cred) =
    if is_none cred.revoked_at
    then (query (λ db. count (is_active cred.user_id) db.credentials) >>= λ active_count.
        revoke_key now active_count cred)
    else pure (exits exit_bad_args ("passkey already revoked" ∷ []))

unfoldable pub cmd_passkeys_revoke : Time → Bool → String → Tx (Exit WebAuthnCredential)
unfolding require_yes revoke_found
cmd_passkeys_revoke now confirmed key_id =
    require_yes confirmed
      do row ← query (λ db. first (λ c. c.id == key_id) db.credentials); revoke_found now row
