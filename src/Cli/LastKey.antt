-- ===== src/Cli/LastKey.antt =====
-- The operator's revocation of a passkey, which counts the active ones as the service does.
use h4ckrth0n.Prelude.{
  ◌<◌, ◌≡◌, ◌≢◌, refl, sym, ap, ◌∙◌, subst, inl, inr, Bool-cases, String, true, Option, none, some,
  ◌==◌, eq_iff, arith, first, count, is_none, leb,
}
use h4ckrth0n.Prelude.Rows.{count-update_one}
use h4ckrth0n.Models.{Time, WebAuthnCredential}
use h4ckrth0n.Result.{ok}
use h4ckrth0n.Db.{Database, consistent}
use h4ckrth0n.Db.Session.{Session, opened, run}
use h4ckrth0n.Db.Session.Laws.{Returns, of_query, of_modify, of_commit, pure-ok, run-Returns}
use h4ckrth0n.Passkeys.Ceremonies.{is_active}
use h4ckrth0n.Passkeys.Management.{set_revoked}
use h4ckrth0n.Passkeys.Management.LastPasskey.{TakesOne, distinct_before, more_than_one}
use h4ckrth0n.Cli.{Exit, output, require_yes}
use h4ckrth0n.Cli.Keys.{revoke_key, revoke_found, commit_key, cmd_passkeys_revoke}

-- A revocation that went through.
pub record Revoked (now : Time) (key_id : String) (db : Database) (printed : WebAuthnCredential)
    (u : Session) : Type 0 where
  pub cred : WebAuthnCredential
  pub chosen : first (λ c. c.id == key_id) db.credentials ≡ some cred
  pub active : is_none cred.revoked_at ≡ true
  pub more : 1 < count (is_active cred.user_id) db.credentials
  pub checked : consistent (set_revoked now cred db) ≡ true
  pub left : u ≡ opened (set_revoked now cred db)
  pub owner : printed.user_id ≡ cred.user_id

exit_of : WebAuthnCredential → Exit WebAuthnCredential → WebAuthnCredential
exit_of c (output d) = d
exit_of c _ = c

output-injective : (c d : WebAuthnCredential) → output c ≡ output d → c ≡ d
unfolding exit_of
output-injective c d e = λ i. exit_of c (e i)

revoke_key-ok :
    (now : Time) (key_id : String) (cred : WebAuthnCredential) (db : Database)
    {printed : WebAuthnCredential} {u : Session}
    → first (λ c. c.id == key_id) db.credentials ≡ some cred
    → is_none cred.revoked_at ≡ true
    → Returns
        (revoke_key now (count (is_active cred.user_id) db.credentials) cred (opened db))
        (output printed)
        u
    → Revoked now key_id db printed u
unfolding revoke_key commit_key
revoke_key-ok now key_id cred db {printed} chosen active h =
    elim (Bool-cases (leb (count (is_active cred.user_id) db.credentials) 1)) [
      | inl few ↦ absurd (let g = rw few at h in let same = (pure-ok _ _ g).0 in cc)
      | inr many ↦ of_modify (set_revoked now cred) _ (opened db) (let g = rw many at h in g) λ h₁.
          of_commit _ _ h₁ λ checked h₂.
            let (same, left) = pure-ok _ _ h₂ in
            record {
              cred = cred;
              chosen = chosen;
              active = active;
              more = more_than_one _ (ground (arith, many));
              checked = checked;
              left = left;
              owner = ap (λ (c : WebAuthnCredential). c.user_id) (output-injective _ _ same);
            }
    ]

revoke_found-ok :
    (now : Time) (key_id : String) (o : Option WebAuthnCredential) (db : Database)
    {printed : WebAuthnCredential} {u : Session}
    → first (λ c. c.id == key_id) db.credentials ≡ o
    → Returns (revoke_found now o (opened db)) (output printed) u
    → Revoked now key_id db printed u
unfolding revoke_found
revoke_found-ok now key_id none db e h = absurd (let same = (pure-ok _ _ h).0 in cc)
revoke_found-ok now key_id (some cred) db e h = elim (Bool-cases (is_none cred.revoked_at)) [
  | inl active ↦
      of_query (λ db. count (is_active cred.user_id) db.credentials) _ (opened db)
        (let g = rw active at h in g) λ h₁. revoke_key-ok now key_id cred db e active h₁
  | inr revoked ↦ absurd (let g = rw revoked at h in let same = (pure-ok _ _ g).0 in cc)
]

passkeys_revoke-ok :
    (now : Time) (key_id : String) (db : Database) {printed : WebAuthnCredential} {u : Session}
    → Returns (cmd_passkeys_revoke now true key_id (opened db)) (output printed) u
    → Revoked now key_id db printed u
unfolding cmd_passkeys_revoke require_yes
passkeys_revoke-ok now key_id db h =
    of_query (λ db. first (λ c. c.id == key_id) db.credentials) _ (opened db) h
      λ h₁. revoke_found-ok now key_id _ db refl h₁

Revoked-TakesOne :
    (now : Time) (key_id other : String) (db : Database) (printed : WebAuthnCredential)
    (u : Session) (r : Revoked now key_id db printed u)
    → other ≢ printed.user_id
    → TakesOne printed.user_id other db (set_revoked now r.cred db)
unfolding set_revoked is_active
Revoked-TakesOne now key_id other db printed u r ne =
    let d = distinct_before now r.cred db r.checked in
    let counts = λ (o : String).
      count-update_one (λ (c : WebAuthnCredential). c.id) (is_active o) (λ c. c.id == key_id)
        (λ c. record c { revoked_at = some now }) db.credentials r.cred d r.chosen in
    let more = r.more in
    let active = r.active in
    subst (λ o. TakesOne o other db (set_revoked now r.cred db)) (sym r.owner)
      (
        ground (arith, counts r.cred.user_id, active, eq_iff r.cred.user_id r.cred.user_id),
        ground (arith, counts r.cred.user_id, active, more, eq_iff r.cred.user_id r.cred.user_id),
        ground (arith, counts other, eq_iff r.cred.user_id other, r.owner, ne),
      )

-- A passkey that the operator revokes leaves its user one active passkey fewer and at least one, and
-- every other user as many as before.
pub operator-TakesOne :
    (now : Time) (key_id other : String) (db db' : Database) (printed : WebAuthnCredential)
    → run (cmd_passkeys_revoke now true key_id) db ≡ (ok (output printed), db')
    → other ≢ printed.user_id
    → TakesOne printed.user_id other db db'
operator-TakesOne now key_id other db db' printed h ne =
    let (u, e, left) =
      run-Returns (cmd_passkeys_revoke now true key_id) db db' (output printed) h in
    let r = passkeys_revoke-ok now key_id db e in
    subst (TakesOne printed.user_id other db)
      (sym (ap (λ (s : Session). s.committed) r.left) ∙ left)
      (Revoked-TakesOne now key_id other db printed u r ne)
