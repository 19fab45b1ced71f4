-- ===== src/Passkeys/Service/Atomicity.antt =====
-- A request of the passkey service that raises leaves the database as it was.
use h4ckrth0n.Prelude.{◌≡◌, ◌≢◌, String, Option, some, none, ◌⊎◌, inl, inr, arith}
use h4ckrth0n.Json.{Fields}
use h4ckrth0n.Models.{Time, User, WebAuthnChallenge}
use h4ckrth0n.Result.{Error, value_error, err}
use h4ckrth0n.Db.{Database}
use h4ckrth0n.Db.Session.{run}
use h4ckrth0n.Db.Session.Atomic.{Atomic, NoCommit, Atomic-run, no_commit_rules, atomic_rules}
use h4ckrth0n.Passkeys.WebAuthn.{Library}
use h4ckrth0n.Passkeys.Flows.{Draws, get_valid_flow, consume_flow}
use h4ckrth0n.Passkeys.Ceremonies.{
  store_credential, finish_registration, finish_authentication, finish_add_credential,
}
use h4ckrth0n.Passkeys.Management.{rename_passkey, revoke_passkey, revoke_in_lock}

get_valid_flow-NoCommit : (now : Time) (f kind : String) → NoCommit (get_valid_flow now f kind)
unfolding get_valid_flow
get_valid_flow-NoCommit now f kind = search no_commit_rules

consume_flow-NoCommit : (now : Time) (f : WebAuthnChallenge) → NoCommit (consume_flow now f)
unfolding consume_flow
consume_flow-NoCommit now f = search no_commit_rules

ruleset rules = (atomic_rules, get_valid_flow-NoCommit, consume_flow-NoCommit)

module _ {late : Option Error} where
  rename-Atomic : (u : User) (k : String) (n : Option String) → Atomic late (rename_passkey u k n)
  unfolding rename_passkey
  rename-Atomic u k n = search rules depth 20

  revoke-Atomic : (now : Time) (u : User) (k : String) → Atomic late (revoke_passkey now u k)
  unfolding revoke_passkey revoke_in_lock
  revoke-Atomic now u k = search rules depth 20

  store-Atomic :
      (library : Library) (d : Draws) (f : String) (c : Fields) (flow : WebAuthnChallenge)
      (o : Option String)
      → Atomic late (store_credential library d f c flow o)
  unfolding store_credential
  store-Atomic library d f c flow o = search rules depth 20

  addition-Atomic :
      (library : Library) (d : Draws) (f : String) (c : Fields) (u : User)
      → Atomic late (finish_add_credential library d f c u)
  unfolding finish_add_credential
  addition-Atomic library d f c u = search (rules, store-Atomic) depth 20

abbrev pub no_user : Error
no_user = value_error "User not found"

registration-Atomic :
    (library : Library) (d : Draws) (f : String) (c : Fields)
    → Atomic (some no_user) (finish_registration library d f c)
unfolding finish_registration
registration-Atomic library d f c = search (rules, store-Atomic) depth 20

authentication-Atomic :
    (library : Library) (d : Draws) (f : String) (c : Fields)
    → Atomic (some no_user) (finish_authentication library d f c)
unfolding finish_authentication
authentication-Atomic library d f c = search rules depth 20

-- A change of an owner's passkeys that raised `e` and left `db'`.
pub data OwnerRaised (db db' : Database) (e : Error) : Type 0 where
  adding :
      (library : Library) (d : Draws) (flow_id : String) (c : Fields) (user : User)
      → run (finish_add_credential library d flow_id c user) db ≡ (err e, db')
      → OwnerRaised db db' e
  renaming :
      (user : User) (key_id : String) (name : Option String)
      → run (rename_passkey user key_id name) db ≡ (err e, db')
      → OwnerRaised db db' e
  revoking :
      (now : Time) (user : User) (key_id : String)
      → run (revoke_passkey now user key_id) db ≡ (err e, db')
      → OwnerRaised db db' e

unchanged : (db db' : Database) {e : Error} → (db' ≡ db) ⊎ (none ≡ some e) → db' ≡ db
unchanged db db' (inl h) = h
unchanged db db' (inr h) = absurd cc

-- Adding, renaming or revoking a passkey that raises, whatever it raises, changes no row.
pub owner_raises : (db db' : Database) (e : Error) → OwnerRaised db db' e → db' ≡ db
owner_raises db db' e (adding library d f c u h) =
    unchanged db db' (Atomic-run _ db db' e (addition-Atomic library d f c u) h)
owner_raises db db' e (renaming u k n h) =
    unchanged db db' (Atomic-run _ db db' e (rename-Atomic u k n) h)
owner_raises db db' e (revoking now u k h) =
    unchanged db db' (Atomic-run _ db db' e (revoke-Atomic now u k) h)

-- A registration or a login whose finish raised `e` and left `db'`.
pub data CeremonyRaised (db db' : Database) (e : Error) : Type 0 where
  registering :
      (library : Library) (d : Draws) (flow_id : String) (c : Fields)
      → run (finish_registration library d flow_id c) db ≡ (err e, db')
      → CeremonyRaised db db' e
  logging_in :
      (library : Library) (d : Draws) (flow_id : String) (c : Fields)
      → run (finish_authentication library d flow_id c) db ≡ (err e, db')
      → CeremonyRaised db db' e

ceremony_cases :
    (db db' : Database) (e : Error) → e ≢ no_user → (db' ≡ db) ⊎ (some no_user ≡ some e) → db' ≡ db
ceremony_cases db db' e ne (inl h) = h
ceremony_cases db db' e ne (inr h) = absurd (ne (ground arith))

-- A finish of a registration or of a login that raises changes no row and consumes no flow, unless
-- it is the missing user that it raises.
pub ceremony_raises :
    (db db' : Database) (e : Error) → CeremonyRaised db db' e → e ≢ no_user → db' ≡ db
ceremony_raises db db' e (registering library d f c h) ne =
    ceremony_cases db db' e ne (Atomic-run _ db db' e (registration-Atomic library d f c) h)
ceremony_raises db db' e (logging_in library d f c h) ne =
    ceremony_cases db db' e ne (Atomic-run _ db db' e (authentication-Atomic library d f c) h)
