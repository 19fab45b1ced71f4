-- ===== src/Passkeys/Interleaved/Steps.antt =====
-- What each statement leaves: no other commit, and no revocation of another user, disturbs a
-- revocation that holds its lock.
use h4ckrth0n.Prelude.{
  ℕ, ◌<◌, ◌≡◌, ◌≢◌, refl, sym, ap, subst, ◌∙◌, String, Bool, true, false, Option, some, ◌==◌,
  is_none, eq_iff, first, count, update, map, distinct, arith,
}
use h4ckrth0n.Prelude.Rows.{count-update_one, count-update-eq, count-concat, first-true}
use h4ckrth0n.Models.{Time, User, WebAuthnCredential}
use h4ckrth0n.Db.{Database, consistent}
use h4ckrth0n.Passkeys.Ceremonies.{is_active, record_use, add_credential}
use h4ckrth0n.Passkeys.Management.{set_name, set_revoked}
use h4ckrth0n.Passkeys.Management.LastPasskey.{names, count-set_revoked}
use h4ckrth0n.Passkeys.Interleaved.Invariant.{live, Keeps, ids_distinct, active_row}

-- A commit that only adds or keeps what the counts ask.
pub add_credential-Keeps :
    (c : WebAuthnCredential) (db : Database) (user_id : String)
    → Keeps user_id db (add_credential c db)
add_credential-Keeps c db user_id = (
  λ key. omega (arith, count-concat (live user_id key) db.credentials c),
  omega (arith, count-concat (is_active user_id) db.credentials c),
)

pub set_name-Keeps :
    (name : Option String) (c : WebAuthnCredential) (db : Database) (user_id : String)
    → Keeps user_id db (set_name name c db)
unfolding set_name is_active
set_name-Keeps name c db user_id =
    let kept =
      λ (p : WebAuthnCredential → Bool)
          (h : (x : WebAuthnCredential) → p (record x { name = name }) ≡ p x).
        count-update-eq p (λ x. x.id == c.id) (λ x. record x { name = name }) db.credentials h in
    (
      λ key. omega (arith, kept (live user_id key) (λ x. refl)),
      omega (arith, kept (is_active user_id) (λ x. refl)),
    )

pub record_use-Keeps :
    (n : ℕ) (now : Time) (c : WebAuthnCredential) (db : Database) (user_id : String)
    → Keeps user_id db (record_use n now c db)
unfolding record_use is_active
record_use-Keeps n now c db user_id =
    let use_it = λ (x : WebAuthnCredential). record x { sign_count = n; last_used_at = some now } in
    let kept =
      λ (p : WebAuthnCredential → Bool) (h : (x : WebAuthnCredential) → p (use_it x) ≡ p x).
        count-update-eq p (λ x. x.id == c.id) use_it db.credentials h in
    (
      λ key. omega (arith, kept (live user_id key) (λ x. refl)),
      omega (arith, kept (is_active user_id) (λ x. refl)),
    )

-- The revocation writes by the key of the row, so any reading of the row will do.
set_revoked-key :
    (now : Time) (c x : WebAuthnCredential) (db : Database)
    → c.id ≡ x.id
    → set_revoked now c db ≡ set_revoked now x db
unfolding set_revoked
set_revoked-key now c x db e =
    ap
      (λ k. record db {
        credentials =
            update (λ y. y.id == k) (λ y. record y { revoked_at = some now }) db.credentials;
      })
      e

-- A condition that the revoked row fits neither before nor after it.
count-unaffected :
    (p : WebAuthnCredential → Bool) (now : Time) (user : User) (key : String)
    (x : WebAuthnCredential) (db : Database)
    → distinct (map (λ c. c.id) db.credentials) ≡ true
    → first (names user key) db.credentials ≡ some x
    → p x ≡ false
    → p (record x { revoked_at = some now }) ≡ false
    → count p (set_revoked now x db).credentials ≡ count p db.credentials
unfolding set_revoked
count-unaffected p now user key x db d chosen before after =
    let n =
      count-update_one (λ (c : WebAuthnCredential). c.id) p (names user key)
        (λ c. record c { revoked_at = some now }) db.credentials x d chosen in
    ground (arith, n)

-- A passkey whose row was read under the lock, when it is revoked.
module _ (now : Time) (user : User) (key : String) (c : WebAuthnCredential) (db : Database)
    (keys : consistent db ≡ true) (same : c.id ≡ key)
    (is_live : 0 < count (live user.id key) db.credentials) where
  -- The row that the statement changes.
  pub row_of :
      (x : WebAuthnCredential) × (first (names user key) db.credentials ≡ some x)
      × (is_none x.revoked_at ≡ true)
      × (x.id ≡ key)
      × (x.user_id ≡ user.id)
      × (set_revoked now c db ≡ set_revoked now x db)
  row_of =
      let (x, chosen, active) = active_row user key db.credentials (ids_distinct db keys) is_live in
      let own = first-true (names user key) db.credentials x chosen in
      let e : x.id ≡ key = (eq_iff x.id key).0 (ground arith) in
      (
        x,
        chosen,
        active,
        e,
        (eq_iff x.user_id user.id).0 (ground arith),
        set_revoked-key now c x db (same ∙ sym e),
      )

  pub set_revoked-Keeps : (other : String) → other ≢ user.id → Keeps other db (set_revoked now c db)
  unfolding is_active
  set_revoked-Keeps other ne =
      let (x, chosen, active, e, own, one) = row_of in
      let foreign : (x.user_id == other) ≡ false = ground (arith, eq_iff x.user_id other) in
      let kept =
        λ (p : WebAuthnCredential → Bool) (b : p x ≡ false)
            (a : p (record x { revoked_at = some now }) ≡ false).
          count-unaffected p now user key x db (ids_distinct db keys) chosen b a in
      subst (Keeps other db) (sym one) (
        λ k. omega (arith, kept (live other k) (ground arith) (ground arith)),
        omega (arith, kept (is_active other) (ground arith) (ground arith)),
      )

  pub set_revoked-leaves_one :
      1 < count (is_active user.id) db.credentials
      → 0 < count (is_active user.id) (set_revoked now c db).credentials
  set_revoked-leaves_one more =
      let (x, chosen, active, e, own, one) = row_of in
      let n = count-set_revoked now user key user.id x db (ids_distinct db keys) chosen in
      subst (λ d. 0 < count (is_active user.id) d.credentials) (sym one) (ground (arith, n))
