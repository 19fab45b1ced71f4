-- ===== src/Passkeys/Management/Renaming.antt =====
-- What renaming stores.
use h4ckrth0n.Prelude.{
  ◌≡◌, refl, sym, ap, ◌∙◌, subst, inl, inr, Bool-cases, String, true, Option, none, some, ◌==◌,
  eq_refl, first, count, is_none,
}
use h4ckrth0n.Prelude.Rows.{first-update, count-update-eq, changed}
use h4ckrth0n.Text.{strip}
use h4ckrth0n.Text.Strip.{strip-strip}
use h4ckrth0n.Models.{User, WebAuthnCredential}
use h4ckrth0n.Result.{ok}
use h4ckrth0n.Db.{Database}
use h4ckrth0n.Db.Session.{Session, run, opened}
use h4ckrth0n.Db.Session.Laws.{
  Returns, of_query, of_found, of_guard, of_modify, of_commit, pure-ok, run-Returns,
}
use h4ckrth0n.Passkeys.Ceremonies.{is_active}
use h4ckrth0n.Passkeys.Management.{clean_name, name_fits, set_name, rename_passkey}
use h4ckrth0n.Passkeys.Management.LastPasskey.{names}

-- The name that is stored is a fixed point: renaming a passkey to the name that it has stores the
-- same name.
pub clean_name-clean_name : (name : Option String) → clean_name (clean_name name) ≡ clean_name name
unfolding clean_name
clean_name-clean_name none = refl
clean_name-clean_name (some name) =
    let again = strip-strip name in
    elim (Bool-cases (strip name == "")) [ inl e ↦ rw e | inr e ↦ rw (e, again, e) ]

-- A renaming that returned.
pub record Renamed (user : User) (key_id : String) (name : Option String) (s u : Session)
    (cred : WebAuthnCredential) : Type 0 where
  pub old : WebAuthnCredential
  pub chosen : first (names user key_id) s.working.credentials ≡ some old
  pub active : is_none old.revoked_at ≡ true
  pub fits : name_fits (clean_name name) ≡ true
  pub left : u ≡ opened (set_name (clean_name name) old s.working)
  pub returned : cred ≡ record old { name = clean_name name }

rename_passkey-ok :
    (user : User) (key_id : String) (name : Option String) (s : Session) {cred : WebAuthnCredential}
    {u : Session}
    → Returns (rename_passkey user key_id name s) cred u
    → Renamed user key_id name s u cred
unfolding rename_passkey
rename_passkey-ok user key_id name s h = of_query _ _ s h λ h₁. of_found _ _ _ s h₁ λ old chosen h₂.
    of_guard _ _ _ s h₂ λ active h₃. of_guard _ _ _ s h₃ λ fits h₄. of_modify _ _ s h₄ λ h₅.
      of_commit _ _ h₅ λ checked h₆.
        let (returned, left) = pure-ok _ _ h₆ in
        record {
          old = old;
          chosen = chosen;
          active = active;
          fits = fits;
          left = left;
          returned = returned;
        }

set_name-found :
    (user : User) (key_id : String) (name : Option String) (cred : WebAuthnCredential)
    (db : Database)
    → first (names user key_id) db.credentials ≡ some cred
    → first (names user key_id) (set_name name cred db).credentials
      ≡ some (record cred { name = name })
unfolding set_name
set_name-found user key_id name cred db found =
    first-update (names user key_id) (λ c. c.id == cred.id) (λ c. record c { name = name })
      db.credentials (λ c. refl)
    ∙ rw (found, changed, eq_refl cred.id)

count-set_name :
    (owner : String) (name : Option String) (cred : WebAuthnCredential) (db : Database)
    → count (is_active owner) (set_name name cred db).credentials
      ≡ count (is_active owner) db.credentials
unfolding set_name is_active
count-set_name owner name cred db =
    count-update-eq (is_active owner) (λ c. c.id == cred.id) (λ c. record c { name = name })
      db.credentials (λ c. refl)

-- What a renaming leaves: the returned passkey under the user's key, with the cleaned name, which is
-- none or of 64 characters at most, and for every user as many active passkeys as before.
abbrev pub Stores :
    User → String → Option String → WebAuthnCredential → String → Database → Database → Type 0
Stores user key_id name cred owner db db' =
    (first (names user key_id) db'.credentials ≡ some cred)
    × (cred.name ≡ clean_name name)
    × (name_fits cred.name ≡ true)
    × (is_none cred.revoked_at ≡ true)
    × (count (is_active owner) db'.credentials ≡ count (is_active owner) db.credentials)

-- A renaming that returns leaves the passkey that it returns as the user's one of that key, not
-- revoked, with the cleaned name, which fits, and as many active passkeys of any user as before.
pub renaming-Stores :
    (user : User) (key_id : String) (name : Option String) (cred : WebAuthnCredential)
    (owner : String) (db db' : Database)
    → run (rename_passkey user key_id name) db ≡ (ok cred, db')
    → Stores user key_id name cred owner db db'
renaming-Stores user key_id name cred owner db db' h =
    let (u, e, left) = run-Returns (rename_passkey user key_id name) db db' cred h in
    let r = rename_passkey-ok user key_id name (opened db) e in
    subst (Stores user key_id name cred owner db)
      (sym (ap (λ (s : Session). s.committed) r.left) ∙ left)
      (subst (λ c. Stores user key_id name c owner db (set_name (clean_name name) r.old db))
        (sym r.returned)
        (
          set_name-found user key_id (clean_name name) r.old db r.chosen,
          refl,
          r.fits,
          r.active,
          count-set_name owner (clean_name name) r.old db,
        ))
