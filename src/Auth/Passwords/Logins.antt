-- ===== src/Auth/Passwords/Logins.antt =====
-- A password that was set is the one that logs in.
use h4ckrth0n.Prelude.{
  ◌≡◌, ◌≢◌, refl, sym, ap, ◌∙◌, subst, String, Bool, true, false, Option, none, some, List, [], ◌∷◌,
  ◌==◌, ◌⊎◌, ◌↔◌, eqb, count, contains, eq_iff, eq_refl, arith, first, is_none, is_text, inl, inr,
  Bool-cases, if◌then◌else◌,
}
use h4ckrth0n.Prelude.Rows.{first-append}
use h4ckrth0n.Models.{User}
use h4ckrth0n.Config.{Settings}
use h4ckrth0n.Result.{Result, ok, err}
use h4ckrth0n.Ids.{new_user_id}
use h4ckrth0n.Db.{Database}
use h4ckrth0n.Db.Session.{Session, ◌>>=◌, opened, run}
use h4ckrth0n.Db.Session.Laws.{
  Returns, of_lift, of_query, of_guard, of_modify, of_commit, pure-ok, run-Returns,
}
use h4ckrth0n.Auth.Passwords.{
  Argon, Crypto, Draws, matches, require_password_extra, add_user, is_bootstrap_admin,
  user_by_email, register_user, or_blank, verify_password, check_password, check_found,
  authenticate_user,
}

-- What a registration that returns has checked and stored.
pub record Registered (crypto : Crypto) (d : Draws) (email password : String) (settings : Settings)
    (s u : Session) (user : User) : Type 0 where
  pub argon : Argon
  pub extra : require_password_extra crypto ≡ ok argon
  pub is_new : user_by_email email s.working ≡ none
  pub left : u ≡ opened (add_user user s.working)
  pub generated : new_user_id d.stream ≡ ok user.id
  pub addressed : user.email ≡ some email
  pub hashed : user.password_hash ≡ some (argon.hash password)
  pub role : user.role ≡ (if is_bootstrap_admin email settings s.working then "admin" else "user")

none_of_is_none {ℓ} : {A : Type ℓ} (o : Option A) → is_none o ≡ true → o ≡ none
none_of_is_none none h = refl
none_of_is_none (some a) h = absurd cc

pub register_user-ok :
    (crypto : Crypto) (d : Draws) (email password : String) (settings : Settings) (s : Session)
    {user : User} {u : Session}
    → Returns (register_user crypto d email password settings s) user u
    → Registered crypto d email password settings s u user
unfolding register_user
register_user-ok crypto d email password settings s {user} {u} h =
    of_lift (require_password_extra crypto) _ s h λ argon extra h₁.
      of_query (user_by_email email) _ s h₁ λ h₂. of_guard _ _ _ s h₂ λ free h₃.
        of_query (is_bootstrap_admin email settings) _ s h₃ λ h₄.
          of_lift (new_user_id d.stream) _ s h₄ λ id generated h₅. of_modify _ _ s h₅ λ h₆.
            of_commit _ _ h₆ λ checked h₇.
              let (same, left) = pure-ok _ _ h₇ in
              record {
                argon = argon;
                extra = extra;
                is_new = none_of_is_none _ free;
                left = left ∙ ap (λ (v : User). opened (add_user v s.working)) (sym same);
                generated = generated ∙ ap (λ (v : User). ok v.id) (sym same);
                addressed = ap (λ (v : User). v.email) same;
                hashed = ap (λ (v : User). v.password_hash) same;
                role = ap (λ (v : User). v.role) same;
              }

-- A user whose stored hash is the one of the password, found by the address.
pub authenticate-found :
    (crypto : Crypto) (argon : Argon) (email password : String) (user : User) (db : Database)
    → require_password_extra crypto ≡ ok argon
    → user_by_email email db ≡ some user
    → user.password_hash ≡ some (argon.hash password)
    → argon.hash password ≢ ""
    → argon.verify (argon.hash password) password ≡ matches
    → run (authenticate_user crypto email password) db ≡ (ok (some user), db)
unfolding authenticate_user ◌>>=◌ check_password verify_password check_found
authenticate-found crypto argon email password user db extra found hashed full verifies =
    let blank : (argon.hash password == "") ≡ false =
      elim (Bool-cases (argon.hash password == "")) [
        | inl e ↦ absurd (full ((eq_iff (argon.hash password) "").0 e))
        | inr e ↦ e
      ] in
    let stored : or_blank user.password_hash ≡ argon.hash password = ap or_blank hashed in
    rw (extra, found, stored, blank, verifies)

pub argon-ready :
    (crypto : Crypto) (argon : Argon)
    → crypto.argon ≡ some argon
    → require_password_extra crypto ≡ ok argon
unfolding require_password_extra
argon-ready crypto argon e = rw (require_password_extra, e)

argon_of : Argon → Result Argon → Argon
argon_of a (ok b) = b
argon_of a (err e) = a

pub argon_injective : (a b : Argon) → ok a ≡ ok b → a ≡ b
unfolding argon_of
argon_injective a b e = λ i. argon_of a (e i)

added_is_found :
    (email : String) (user : User) (db : Database)
    → user.email ≡ some email
    → user_by_email email db ≡ none
    → user_by_email email (add_user user db) ≡ some user
unfolding first
added_is_found email user db named e =
    first-append (λ u. is_text u.email email) db.users (user ∷ [])
    ∙ rw (e, is_none, named, is_text, eq_refl email)

-- An account logs in with the password that it was registered with. Argon2's hash of the password is
-- not empty and verifies.
pub registered_logs_in :
    (crypto : Crypto) (argon : Argon) (d : Draws) (email password : String) (settings : Settings)
    (db db' : Database) (user : User)
    → crypto.argon ≡ some argon
    → argon.hash password ≢ ""
    → argon.verify (argon.hash password) password ≡ matches
    → run (register_user crypto d email password settings) db ≡ (ok user, db')
    → run (authenticate_user crypto email password) db' ≡ (ok (some user), db')
registered_logs_in crypto argon d email password settings db db' user extra full verifies h =
    let (u, r, left) = run-Returns (register_user crypto d email password settings) db db' user h in
    let reg = register_user-ok crypto d email password settings (opened db) r in
    let ready = argon-ready crypto argon extra in
    let same : reg.argon ≡ argon = argon_injective _ _ (sym reg.extra ∙ ready) in
    let found : user_by_email email (add_user user db) ≡ some user =
      added_is_found email user db reg.addressed reg.is_new in
    subst (λ db. run (authenticate_user crypto email password) db ≡ (ok (some user), db))
      (sym (ap (λ (s : Session). s.committed) reg.left) ∙ left)
      (authenticate-found crypto argon email password user (add_user user db) ready found
        (reg.hashed ∙ ap (λ (a : Argon). some (a.hash password)) same) full verifies)

no_rows : (rows : List User) → (eqb (count (λ u. true) rows) 0 ≡ true) ↔ (rows ≡ [])
unfolding count
no_rows [] = (λ e. refl, λ e. refl)
no_rows (x ∷ xs) = (λ e. absurd (ground (arith, e)), λ e. absurd cc)

abbrev role_of : Bool → String
role_of b = if b then "admin" else "user"

role_of-admin : (b : Bool) → (role_of b ≡ "admin") ↔ (b ≡ true)
role_of-admin true = (λ e. refl, λ e. refl)
role_of-admin false = (λ e. absurd (let t = (eq_iff "user" "admin").1 e in cc), λ e. absurd cc)

second {ℓ} : {A : Type ℓ} → (false ≡ true) ⊎ ((true ≡ true) × A) → A
second (inl e) = absurd cc
second (inr h) = h.1

neither {ℓ} : {A : Type ℓ} → (false ≡ true) ⊎ ((false ≡ true) × A) → ⊥
neither (inl e) = cc
neither (inr h) = let e = h.0 in cc

admin_by_bool :
    {C : Type 0} (role : String) (b : Bool)
    → role ≡ role_of b
    → (b ≡ true) ↔ C
    → (role ≡ "admin") ↔ C
admin_by_bool role b e f =
    (λ h. f.0 ((role_of-admin b).0 (sym e ∙ h)), λ c. e ∙ (role_of-admin b).1 (f.1 c))

bootstrap_iff :
    (email : String) (settings : Settings) (db : Database)
    → (is_bootstrap_admin email settings db ≡ true) ↔ (
        (contains email settings.bootstrap_admin_emails ≡ true)
        ⊎ ((settings.first_user_is_admin ≡ true) × (db.users ≡ [])))
unfolding is_bootstrap_admin
bootstrap_iff email settings db =
    elim (Bool-cases (contains email settings.bootstrap_admin_emails)) [
      | inl e ↦ rw e (λ h. inl refl, λ h. refl)
      | inr e ↦ elim (Bool-cases settings.first_user_is_admin) [
        | inl f ↦
            rw (e, f)
              (λ h. inr (refl, (no_rows db.users).0 h), λ h. (no_rows db.users).1 (second h))
        | inr f ↦ rw (e, f) (λ h. absurd cc, λ h. absurd (neither h))
      ]
    ]

-- Who becomes an administrator, and that an address is registered once: a registration that returns
-- found no user with the address, adds its user and nothing else, with the role `admin` exactly if
-- the address is in the bootstrap list or the first user is to be an administrator and there was
-- none.
pub registration_adds :
    (crypto : Crypto) (d : Draws) (email password : String) (settings : Settings)
    (db db' : Database) (user : User)
    → run (register_user crypto d email password settings) db ≡ (ok user, db')
    → (user_by_email email db ≡ none)
      × (db' ≡ add_user user db)
      × ((user.role ≡ "admin") ↔ (
          (contains email settings.bootstrap_admin_emails ≡ true)
          ⊎ ((settings.first_user_is_admin ≡ true) × (db.users ≡ []))))
registration_adds crypto d email password settings db db' user h =
    let (u, r, left) = run-Returns (register_user crypto d email password settings) db db' user h in
    let reg = register_user-ok crypto d email password settings (opened db) r in
    (
      reg.is_new,
      sym left ∙ ap (λ (s : Session). s.committed) reg.left,
      admin_by_bool user.role _ reg.role (bootstrap_iff email settings db),
    )
