-- ===== src/Passkeys/Service/ActiveKeys.antt =====
-- A user who can log in with a passkey can do so after any history of calls.
use h4ckrth0n.Prelude.{
  ◌<◌, ◌≡◌, refl, subst, String, true, some, List, [], ◌∷◌, arith, eq_iff, ◌==◌, Bool-cases, inl,
  inr, count, first, not, leb,
}
use h4ckrth0n.Prelude.Rows.{count-concat, count-update-eq, first-true}
use h4ckrth0n.Models.{Time, User, WebAuthnCredential}
use h4ckrth0n.Db.{Database, consistent}
use h4ckrth0n.Db.Session.Keeps.{Keeps, Keeps-or_rollback, at_query, at_found, at_guard, at_change}
use h4ckrth0n.Passkeys.WebAuthn.{Library}
use h4ckrth0n.Passkeys.Ceremonies.{is_active, record_use}
use h4ckrth0n.Passkeys.Flows.{mark_consumed}
use h4ckrth0n.Passkeys.Management.{revoke_passkey, revoke_in_lock, set_name, set_revoked}
use h4ckrth0n.Passkeys.Management.LastPasskey.{
  names, distinct_before, count-set_revoked, more_than_one,
}
use h4ckrth0n.Passkeys.Service.{
  Call, starts_registration, finishes_registration, starts_authentication, finishes_authentication,
  starts_addition, finishes_addition, lists, renames, revokes, cleans_up, history,
}
use h4ckrth0n.Passkeys.Service.Keeps.{Survives, AllFresh, history-keeps}

-- The user has a passkey that is not revoked.
abbrev pub HasPasskey : String → Database → Type 0
HasPasskey user_id db = 0 < count (is_active user_id) db.credentials

active_owner :
    (owner : String) (c : WebAuthnCredential) → is_active owner c ≡ true → c.user_id ≡ owner
unfolding is_active
active_owner owner c h = ground (arith, eq_iff c.user_id owner)

module _ (user_id : String) where
  set_revoked-Keeps :
      (now : Time) (user : User) (key_id : String) (cred : WebAuthnCredential) (db : Database)
      → first (names user key_id) db.credentials ≡ some cred
      → not (leb (count (is_active user.id) db.credentials) 1) ≡ true
      → consistent (set_revoked now cred db) ≡ true
      → HasPasskey user_id db
      → HasPasskey user_id (set_revoked now cred db)
  set_revoked-Keeps now user key_id cred db chosen more checked h =
      let d = distinct_before now cred db checked in
      let n = count-set_revoked now user key_id user_id cred db d chosen in
      let own = first-true (names user key_id) db.credentials cred chosen in
      let two = more_than_one (count (is_active user.id) db.credentials) more in
      elim (Bool-cases (is_active user_id cred)) [
        | inl e ↦
            let same = active_owner user_id cred e in
            let ours : user.id ≡ user_id = ground (arith, own, eq_iff cred.user_id user.id) in
            let two' = subst (λ o. 1 < count (is_active o) db.credentials) ours two in
            ground (arith, n)
        | inr e ↦ ground (arith, n)
      ]

  revoke_in_lock-Keeps :
      (now : Time) (user : User) (key_id : String)
      → Keeps (HasPasskey user_id) (revoke_in_lock now user key_id)
  unfolding revoke_in_lock
  revoke_in_lock-Keeps now user key_id = record {
    at = λ s. at_query _ _ s (
        at_found _ _ _ s λ cred chosen. at_guard _ _ _ s λ active. at_query _ _ s (
          at_guard _ _ _ s
            λ more. at_change _ s (set_revoked-Keeps now user key_id cred s.working chosen more)));
  }

  revoke-Keeps :
      (now : Time) (user : User) (key_id : String)
      → Keeps (HasPasskey user_id) (revoke_passkey now user key_id)
  unfolding revoke_passkey
  revoke-Keeps now user key_id = Keeps-or_rollback _ (revoke_in_lock-Keeps now user key_id)

  HasPasskey-survives : Survives (HasPasskey user_id) (λ _. Unit {0})
  unfolding record_use set_name mark_consumed is_active
  HasPasskey-survives = record {
    user = λ u db h. h;
    credential = λ c db h. omega (arith, count-concat (is_active user_id) db.credentials c);
    challenge = λ f db fresh h. h;
    consumed = λ now f db h. h;
    login = λ n now c db h. omega (
      arith,
      count-update-eq (is_active user_id) (λ x. x.id == c.id)
          (λ x. record x { sign_count = n; last_used_at = some now }) db.credentials (λ x. refl),
    );
    name = λ n c db h. omega (
      arith,
      count-update-eq (is_active user_id) (λ x. x.id == c.id) (λ x. record x { name = n })
          db.credentials (λ x. refl),
    );
    cleanup = λ now db h. h;
    revoke = revoke-Keeps;
  }

-- No draw is asked for anything.
all_fresh : (cs : List Call) → AllFresh (λ _. Unit {0}) cs
all_fresh [] = tt
all_fresh (starts_registration d s ∷ cs) = (tt, all_fresh cs)
all_fresh (starts_authentication d s ∷ cs) = (tt, all_fresh cs)
all_fresh (starts_addition d s u ∷ cs) = (tt, all_fresh cs)
all_fresh (finishes_registration d f c ∷ cs) = (tt, all_fresh cs)
all_fresh (finishes_authentication d f c ∷ cs) = (tt, all_fresh cs)
all_fresh (finishes_addition d f c u ∷ cs) = (tt, all_fresh cs)
all_fresh (lists u ∷ cs) = (tt, all_fresh cs)
all_fresh (renames u k n ∷ cs) = (tt, all_fresh cs)
all_fresh (revokes t u k ∷ cs) = (tt, all_fresh cs)
all_fresh (cleans_up t ∷ cs) = (tt, all_fresh cs)

-- A user who has an active passkey has one after any history of calls of the service, whoever makes
-- them.
pub active_passkey_remains :
    (library : Library) (user_id : String) (db : Database) (calls : List Call)
    → HasPasskey user_id db
    → HasPasskey user_id (history library db calls)
active_passkey_remains library user_id db calls h =
    history-keeps (HasPasskey-survives user_id) library db calls (all_fresh calls) h
