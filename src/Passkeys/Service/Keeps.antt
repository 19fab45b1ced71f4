-- ===== src/Passkeys/Service/Keeps.antt =====
-- Invariants of the passkey service: what survives each change of a row survives every history.
use h4ckrth0n.Prelude.{ℕ, String, Option, List, [], ◌∷◌, not, ltb, select}
use h4ckrth0n.Json.{Fields}
use h4ckrth0n.Models.{Time, User, WebAuthnChallenge, WebAuthnCredential}
use h4ckrth0n.Config.{Settings}
use h4ckrth0n.Db.{Database}
use h4ckrth0n.Db.Session.{modify}
use h4ckrth0n.Db.Session.Keeps.{Keeps, Keeps-run, Keeps-modify, keeps_rules}
use h4ckrth0n.Passkeys.WebAuthn.{Library}
use h4ckrth0n.Passkeys.Flows.{
  Draws, new_flow_id, cleanup_expired_challenges, get_valid_flow, consume_flow, mark_consumed,
}
use h4ckrth0n.Passkeys.Ceremonies.{
  start_registration, finish_registration, start_authentication, finish_authentication,
  start_add_credential, finish_add_credential, add_user, add_credential, add_challenge,
  store_credential, record_use,
}
use h4ckrth0n.Passkeys.Management.{list_passkeys, rename_passkey, revoke_passkey, set_name}
use h4ckrth0n.Passkeys.Service.{
  Call, starts_registration, finishes_registration, starts_authentication, finishes_authentication,
  starts_addition, finishes_addition, lists, renames, revokes, cleans_up, step, history,
}

-- The deletion of the flows that have expired.
abbrev pub drop_expired : Time → Database → Database
drop_expired now db = record db {
  challenges = select (λ f. not (ltb f.expires_at now)) db.challenges;
}

-- `P` survives every change of a row; a new flow's identifier may be asked to be `Fresh`.
pub record Survives (P : Database → Type 0) (Fresh : String → Type 0) : Type 0 where
  pub user : (u : User) (db : Database) → P db → P (add_user u db)
  pub credential : (c : WebAuthnCredential) (db : Database) → P db → P (add_credential c db)
  pub challenge :
      (f : WebAuthnChallenge) (db : Database) → Fresh f.id → P db → P (add_challenge f db)
  pub consumed :
      (now : Time) (f : WebAuthnChallenge) (db : Database) → P db → P (mark_consumed now f db)
  pub login :
      (n : ℕ) (now : Time) (c : WebAuthnCredential) (db : Database)
      → P db
      → P (record_use n now c db)
  pub name :
      (n : Option String) (c : WebAuthnCredential) (db : Database) → P db → P (set_name n c db)
  pub cleanup : (now : Time) (db : Database) → P db → P (drop_expired now db)
  pub revoke : (now : Time) (u : User) (k : String) → Keeps P (revoke_passkey now u k)

-- The identifiers that a call draws for new flows are fresh.
abbrev pub DrawsFresh : (String → Type 0) → Call → Type 0
DrawsFresh Fresh (starts_registration d s) = Fresh (new_flow_id d)
DrawsFresh Fresh (starts_authentication d s) = Fresh (new_flow_id d)
DrawsFresh Fresh (starts_addition d s u) = Fresh (new_flow_id d)
DrawsFresh Fresh _ = Unit {0}

abbrev pub AllFresh : (String → Type 0) → List Call → Type 0
AllFresh Fresh [] = Unit {0}
AllFresh Fresh (c ∷ cs) = DrawsFresh Fresh c × AllFresh Fresh cs

module _ {P : Database → Type 0} {Fresh : String → Type 0} (v : Survives P Fresh) where
  user-Keeps : (u : User) → Keeps P (modify (add_user u))
  user-Keeps u = Keeps-modify _ (v.user u)

  credential-Keeps : (c : WebAuthnCredential) → Keeps P (modify (add_credential c))
  credential-Keeps c = Keeps-modify _ (v.credential c)

  challenge-Keeps : (f : WebAuthnChallenge) → Fresh f.id → Keeps P (modify (add_challenge f))
  challenge-Keeps f fresh = Keeps-modify _ (λ db. v.challenge f db fresh)

  use-Keeps : (n : ℕ) (now : Time) (c : WebAuthnCredential) → Keeps P (modify (record_use n now c))
  use-Keeps n now c = Keeps-modify _ (v.login n now c)

  name-Keeps : (n : Option String) (c : WebAuthnCredential) → Keeps P (modify (set_name n c))
  name-Keeps n c = Keeps-modify _ (v.name n c)

  consumed-Keeps : (now : Time) (f : WebAuthnChallenge) → Keeps P (modify (mark_consumed now f))
  consumed-Keeps now f = Keeps-modify _ (v.consumed now f)

  cleanup-Keeps : (now : Time) → Keeps P (modify (drop_expired now))
  cleanup-Keeps now = Keeps-modify _ (v.cleanup now)

  get_valid_flow-Keeps : (now : Time) (f kind : String) → Keeps P (get_valid_flow now f kind)
  unfolding get_valid_flow
  get_valid_flow-Keeps now f kind = search keeps_rules

  consume_flow-Keeps : (now : Time) (f : WebAuthnChallenge) → Keeps P (consume_flow now f)
  unfolding consume_flow
  consume_flow-Keeps now f = search (keeps_rules, consumed-Keeps)

  ruleset steps = (
    keeps_rules, user-Keeps, credential-Keeps, challenge-Keeps, use-Keeps, name-Keeps,
    cleanup-Keeps, get_valid_flow-Keeps, consume_flow-Keeps,
  )

  cleans_up-Keeps : (now : Time) → Keeps P (cleanup_expired_challenges now)
  unfolding cleanup_expired_challenges
  cleans_up-Keeps now = search steps depth 12

  renames-Keeps : (u : User) (k : String) (n : Option String) → Keeps P (rename_passkey u k n)
  unfolding rename_passkey
  renames-Keeps u k n = search steps depth 12

  module _ (library : Library) (d : Draws) where
    start_registration-Keeps :
        (s : Settings) → Fresh (new_flow_id d) → Keeps P (start_registration library d s)
    unfolding start_registration
    start_registration-Keeps s fresh = search steps depth 20

    start_authentication-Keeps :
        (s : Settings) → Fresh (new_flow_id d) → Keeps P (start_authentication library d s)
    unfolding start_authentication
    start_authentication-Keeps s fresh = search steps depth 20

    start_add_credential-Keeps :
        (s : Settings) (u : User)
        → Fresh (new_flow_id d)
        → Keeps P (start_add_credential library d s u)
    unfolding start_add_credential
    start_add_credential-Keeps s u fresh = search steps depth 20

    module _ (f : String) (c : Fields) where
      store_credential-Keeps :
          (flow : WebAuthnChallenge) (o : Option String)
          → Keeps P (store_credential library d f c flow o)
      unfolding store_credential
      store_credential-Keeps flow o = search steps depth 20

      finish_registration-Keeps : Keeps P (finish_registration library d f c)
      unfolding finish_registration
      finish_registration-Keeps = search (steps, store_credential-Keeps) depth 20

      finish_add_credential-Keeps : (u : User) → Keeps P (finish_add_credential library d f c u)
      unfolding finish_add_credential
      finish_add_credential-Keeps u = search (steps, store_credential-Keeps) depth 20

      finish_authentication-Keeps : Keeps P (finish_authentication library d f c)
      unfolding finish_authentication
      finish_authentication-Keeps = search steps depth 20

  lists-Keeps : (u : User) → Keeps P (list_passkeys u)
  unfolding list_passkeys
  lists-Keeps u = search keeps_rules

  module _ (library : Library) where
    pub step-keeps : (db : Database) (c : Call) → DrawsFresh Fresh c → P db → P (step library db c)
    unfolding step
    step-keeps db (starts_registration d s) fresh h =
        Keeps-run _ db (start_registration-Keeps library d s fresh) h
    step-keeps db (finishes_registration d f c) fresh h =
        Keeps-run _ db (finish_registration-Keeps library d f c) h
    step-keeps db (starts_authentication d s) fresh h =
        Keeps-run _ db (start_authentication-Keeps library d s fresh) h
    step-keeps db (finishes_authentication d f c) fresh h =
        Keeps-run _ db (finish_authentication-Keeps library d f c) h
    step-keeps db (starts_addition d s u) fresh h =
        Keeps-run _ db (start_add_credential-Keeps library d s u fresh) h
    step-keeps db (finishes_addition d f c u) fresh h =
        Keeps-run _ db (finish_add_credential-Keeps library d f c u) h
    step-keeps db (lists u) fresh h = Keeps-run _ db (lists-Keeps u) h
    step-keeps db (renames u k n) fresh h = Keeps-run _ db (renames-Keeps u k n) h
    step-keeps db (revokes t u k) fresh h = Keeps-run _ db (v.revoke t u k) h
    step-keeps db (cleans_up t) fresh h = Keeps-run _ db (cleans_up-Keeps t) h

    pub history-keeps :
        (db : Database) (cs : List Call) → AllFresh Fresh cs → P db → P (history library db cs)
    unfolding history
    history-keeps db [] fresh h = h
    history-keeps db (c ∷ cs) fresh h =
        history-keeps (step library db c) cs fresh.1 (step-keeps db c fresh.0 h)
