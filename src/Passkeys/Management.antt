-- ===== src/Passkeys/Management.antt =====
-- Listing, renaming and revoking of src/h4ckath0n/auth/passkeys/service.py. A request runs alone
-- here; `Passkeys.Interleaved` has revocations that run at once.
pub mod LastPasskey
pub mod Renaming
use h4ckrth0n.Prelude.{
  ℕ, String, Bool, ◌&&◌, not, Option, none, some, List, [], ◌∷◌, ◌==◌, ltb, leb, is_none,
  if◌then◌else◌, first, select, count, update,
}
use h4ckrth0n.Models.{Time, User, WebAuthnCredential}
use h4ckrth0n.Result.{value_error, last_passkey_error}
use h4ckrth0n.Text.{length, strip}
use h4ckrth0n.Db.{Database}
use h4ckrth0n.Db.Session.{Tx, ◌>>=◌, ◌>>◌, pure, query, modify, commit, found, guard, or_rollback}
use h4ckrth0n.Passkeys.Ceremonies.{is_active}

-- `ORDER BY created_at`; rows of one time keep their order.
pub insert_by_time : WebAuthnCredential → List WebAuthnCredential → List WebAuthnCredential
insert_by_time c [] = c ∷ []
insert_by_time c (x ∷ xs) =
    if leb c.created_at x.created_at then c ∷ x ∷ xs else x ∷ insert_by_time c xs

unfoldable pub order_by_time : List WebAuthnCredential → List WebAuthnCredential
unfolding insert_by_time
order_by_time [] = []
order_by_time (c ∷ cs) = insert_by_time c (order_by_time cs)

unfoldable pub list_passkeys : User → Tx (List WebAuthnCredential)
unfolding order_by_time
list_passkeys user = query (λ db. order_by_time (select (λ c. c.user_id == user.id) db.credentials))

-- `select(WebAuthnCredential).filter(id == key_id, user_id == user.id)`, its first row
abbrev pub owned_by : User → String → Tx (Option WebAuthnCredential)
owned_by user key_id =
    query (λ db. first (λ c. c.id == key_id && c.user_id == user.id) db.credentials)

-- `name.strip() if name else None`, and `None` for what is empty then
unfoldable pub clean_name : Option String → Option String
clean_name none = none
clean_name (some name) = let clean = strip name in if clean == "" then none else some clean

abbrev pub name_fits : Option String → Bool
name_fits none = Bool.true
name_fits (some clean) = leb (length clean) 64

unfoldable pub set_name : Option String → WebAuthnCredential → Database → Database
set_name name cred db = record db {
  credentials = update (λ c. c.id == cred.id) (λ c. record c { name = name }) db.credentials;
}

unfoldable pub rename_passkey : User → String → Option String → Tx WebAuthnCredential
unfolding clean_name set_name
rename_passkey user key_id name = do
  row ← owned_by user key_id
  cred ← found row (value_error "Credential not found")
  guard (is_none cred.revoked_at) (value_error "Cannot rename a revoked passkey")
  let clean = clean_name name
  guard (name_fits clean) (value_error "Name must be 64 characters or fewer")
  modify (set_name clean cred)
  commit
  pure (record cred { name = clean })

unfoldable pub set_revoked : Time → WebAuthnCredential → Database → Database
set_revoked now cred db = record db {
  credentials =
      update (λ c. c.id == cred.id) (λ c. record c { revoked_at = some now }) db.credentials;
}

-- The body of the `try`: what raises there is rolled back.
unfoldable pub revoke_in_lock : Time → User → String → Tx (Unit {0})
unfolding set_revoked
revoke_in_lock now user key_id = do
  row ← owned_by user key_id
  cred ← found row (value_error "Credential not found")
  guard (is_none cred.revoked_at) (value_error "Credential already revoked")
  active_count ← query (λ db. count (is_active user.id) db.credentials)
  guard (not (leb active_count 1)) last_passkey_error
  modify (set_revoked now cred)
  commit

unfoldable pub revoke_passkey : Time → User → String → Tx (Unit {0})
unfolding or_rollback revoke_in_lock
revoke_passkey now user key_id = or_rollback (revoke_in_lock now user key_id)
