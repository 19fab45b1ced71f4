-- ===== src/Passkeys/Service.antt =====
-- Histories of the passkey service: the calls that the routers make, one request after the other,
-- each in a session of its own. What a call raises is dropped here; what it committed stays.
pub mod Keeps
pub mod SingleUse
pub mod ActiveKeys
pub mod Atomicity
pub mod Cleanup
use h4ckrth0n.Prelude.{String, Option, List, [], ◌∷◌}
use h4ckrth0n.Json.{Fields}
use h4ckrth0n.Models.{Time, User}
use h4ckrth0n.Config.{Settings}
use h4ckrth0n.Db.{Database}
use h4ckrth0n.Db.Session.{run}
use h4ckrth0n.Passkeys.WebAuthn.{Library}
use h4ckrth0n.Passkeys.Flows.{Draws, cleanup_expired_challenges}
use h4ckrth0n.Passkeys.Ceremonies.{
  start_registration, finish_registration, start_authentication, finish_authentication,
  start_add_credential, finish_add_credential,
}
use h4ckrth0n.Passkeys.Management.{list_passkeys, rename_passkey, revoke_passkey}

pub data Call : Type 0 where
  starts_registration : Draws → Settings → Call
  finishes_registration : Draws → String → Fields → Call
  starts_authentication : Draws → Settings → Call
  finishes_authentication : Draws → String → Fields → Call
  starts_addition : Draws → Settings → User → Call
  finishes_addition : Draws → String → Fields → User → Call
  lists : User → Call
  renames : User → String → Option String → Call
  revokes : Time → User → String → Call
  cleans_up : Time → Call

module _ (library : Library) where
  unfoldable pub step : Database → Call → Database
  step db (starts_registration d s) = (run (start_registration library d s) db).1
  step db (finishes_registration d f c) = (run (finish_registration library d f c) db).1
  step db (starts_authentication d s) = (run (start_authentication library d s) db).1
  step db (finishes_authentication d f c) = (run (finish_authentication library d f c) db).1
  step db (starts_addition d s u) = (run (start_add_credential library d s u) db).1
  step db (finishes_addition d f c u) = (run (finish_add_credential library d f c u) db).1
  step db (lists u) = (run (list_passkeys u) db).1
  step db (renames u k n) = (run (rename_passkey u k n) db).1
  step db (revokes t u k) = (run (revoke_passkey t u k) db).1
  step db (cleans_up t) = (run (cleanup_expired_challenges t) db).1

  unfoldable pub history : Database → List Call → Database
  history db [] = db
  history db (c ∷ cs) = history (step db c) cs
