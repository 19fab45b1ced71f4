-- ===== src/Auth/Dependencies/Access.antt =====
-- Whom the dependencies of an endpoint let in.
use h4ckrth0n.Prelude.{
  ◌≡◌, refl, ap, ◌∙◌, subst, ◌↔◌, inl, inr, String, Bool, true, not, ◌&&◌, Option, none, some, List,
  [], ◌∷◌, ◌==◌, eq_iff, arith, first, select, all, contains, Bool-cases,
}
use h4ckrth0n.Text.Split.{lacks, join, split-join}
use h4ckrth0n.Models.{User}
use h4ckrth0n.Db.{Database}
use h4ckrth0n.Http.{Http, responds, http_exception, unprocessable, crashes, ◌>>=◌}
use h4ckrth0n.Auth.Jwt.{
  Library, Verdict, accepted, auth_error, crashed, AuthContext, verify_device_jwt, aud_http,
}
use h4ckrth0n.Auth.Dependencies.{
  or_401, user_or_401, comma, user_scopes, scoped, get_auth_context, get_current_user, require_user,
  require_admin, require_scopes,
}

-- A user whom a token stands for: verified on one state of the database, stored in a later one.
pub record Authenticated (library : Library) (token : String) (db later : Database) (user : User)
    : Type 0 where
  pub ctx : AuthContext
  pub verified : verify_device_jwt library token aud_http db ≡ accepted ctx
  pub stored : first (λ u. u.id == ctx.user_id) later.users ≡ some user

module _ {C : Type 0} where
  of_or_401 :
      (v : Verdict AuthContext) (f : AuthContext → Http User) {user : User}
      → (or_401 v >>= f) ≡ responds user
      → ((ctx : AuthContext) → v ≡ accepted ctx → f ctx ≡ responds user → C)
      → C
  of_or_401 (accepted ctx) f h k = k ctx refl h
  of_or_401 (auth_error detail) f h k = absurd cc
  of_or_401 crashed f h k = absurd cc

  of_user_or_401 :
      (o : Option User) {user : User} → user_or_401 o ≡ responds user → (o ≡ some user → C) → C
  of_user_or_401 none h k = absurd cc
  of_user_or_401 (some u) h k = k cc

  of_responds :
      (m : Http User) (f : User → Http User) {user : User}
      → (m >>= f) ≡ responds user
      → ((u : User) → m ≡ responds u → f u ≡ responds user → C)
      → C
  of_responds (responds u) f h k = k u refl h
  of_responds (http_exception status detail) f h k = absurd cc
  of_responds unprocessable f h k = absurd cc
  of_responds crashes f h k = absurd cc

module _ (library : Library) (token : String) (db later : Database) (user : User) where
  pub user-Authenticated :
      require_user library token db later ≡ responds user
      → Authenticated library token db later user
  unfolding require_user get_auth_context get_current_user
  user-Authenticated h =
      of_or_401 (verify_device_jwt library token aud_http db) _ h λ ctx verified k.
        of_user_or_401 _ k λ stored. record { ctx = ctx; verified = verified; stored = stored }

  pub Authenticated-user :
      Authenticated library token db later user
      → require_user library token db later ≡ responds user
  unfolding require_user get_auth_context get_current_user
  Authenticated-user a = rw (a.verified, or_401, a.stored, user_or_401)

  admin-ok :
      require_admin library token db later ≡ responds user
      → Authenticated library token db later user × (user.role ≡ "admin")
  unfolding require_admin
  admin-ok h = of_responds (require_user library token db later) _ h λ u e k.
      elim (Bool-cases (u.role == "admin")) [
        | inl r ↦
            let same : u ≡ user = let g = rw r at k in cc in
            (
              user-Authenticated (e ∙ ap responds same),
              subst (λ v. v.role ≡ "admin") same ((eq_iff u.role "admin").0 r),
            )
        | inr r ↦ absurd (let g = rw r at k in cc)
      ]

  ok-admin :
      Authenticated library token db later user × (user.role ≡ "admin")
      → require_admin library token db later ≡ responds user
  unfolding require_admin
  ok-admin a = let r = (eq_iff user.role "admin").1 a.1 in rw (Authenticated-user a.0, r)

-- An endpoint for administrators lets a request in, as a user, exactly if the token verifies for the
-- HTTP audience as an identity whose stored user is this one, with the role `admin` in the database.
pub admin_iff :
    (library : Library) (token : String) (db later : Database) (user : User)
    → (require_admin library token db later ≡ responds user)
      ↔ (Authenticated library token db later user × (user.role ≡ "admin"))
admin_iff library token db later user =
    (admin-ok library token db later user, ok-admin library token db later user)

-- A scope as it can be stored: not empty and without a comma.
abbrev pub is_scope : String → Bool
is_scope s = not (s == "") && lacks comma s

select-scopes :
    (granted : List String)
    → all is_scope granted ≡ true
    → select (λ s. not (s == "")) granted ≡ granted
unfolding select all
select-scopes [] h = refl
select-scopes (s ∷ granted) h =
    let rest = select-scopes granted (ground (arith, h)) in
    let full : not (s == "") ≡ true = ground (arith, h) in rw (full, rest)

all-lacks : (granted : List String) → all is_scope granted ≡ true → all (lacks comma) granted ≡ true
unfolding all
all-lacks [] h = refl
all-lacks (s ∷ granted) h = ground (arith, all-lacks granted)

pub user_scopes-join :
    (user : User) (granted : List String)
    → all is_scope granted ≡ true
    → user.scopes ≡ join comma granted
    → user_scopes user ≡ granted
unfolding user_scopes join
user_scopes-join user [] h e = rw e
user_scopes-join user (s ∷ granted) h e =
    rw (e, split-join comma s granted (all-lacks (s ∷ granted) h), select-scopes (s ∷ granted) h)

scoped-ok :
    (needed granted : List String) (user v : User)
    → scoped needed granted user ≡ responds v
    → (all (λ s. contains s granted) needed ≡ true) × (user ≡ v)
unfolding scoped all
scoped-ok [] granted user v h = (refl, cc)
scoped-ok (s ∷ needed) granted user v h = elim (Bool-cases (contains s granted)) [
  | inl e ↦
      let rest = scoped-ok needed granted user v (let g = rw e at h in g) in
      (ground (arith, e, rest.0), rest.1)
  | inr e ↦ absurd (let g = rw e at h in cc)
]

ok-scoped :
    (needed granted : List String) (user : User)
    → all (λ s. contains s granted) needed ≡ true
    → scoped needed granted user ≡ responds user
unfolding scoped all
ok-scoped [] granted user h = refl
ok-scoped (s ∷ needed) granted user h =
    let held : contains s granted ≡ true = ground (arith, h) in
    let rest = ok-scoped needed granted user (ground (arith, h)) in rw (held, rest)

module _ (library : Library) (token : String) (db later : Database) (user : User) where
  module _ (needed granted : List String) (names : all is_scope granted ≡ true)
      (column : user.scopes ≡ join comma granted) where
    scopes-ok :
        require_scopes library needed token db later ≡ responds user
        → Authenticated library token db later user × (all (λ s. contains s granted) needed ≡ true)
    unfolding require_scopes
    scopes-ok h = of_responds (require_user library token db later) _ h λ u e k.
        let r = scoped-ok needed (user_scopes u) u user k in
        let parts = ap user_scopes r.1 ∙ user_scopes-join user granted names column in
        (
          user-Authenticated library token db later user (e ∙ ap responds r.1),
          subst (λ l. all (λ s. contains s l) needed ≡ true) parts r.0,
        )

    ok-scopes :
        Authenticated library token db later user × (all (λ s. contains s granted) needed ≡ true)
        → require_scopes library needed token db later ≡ responds user
    unfolding require_scopes
    ok-scopes a =
        rw
          (
            Authenticated-user library token db later user a.0,
            user_scopes-join user granted names column,
          )
          (ok-scoped needed granted user a.1)

-- An endpoint that needs scopes lets a request in as a user whose stored scopes are a list of names,
-- joined by commas, exactly if the token verifies as an identity with this stored user and every
-- needed scope is in the list. A name is not empty and has no comma.
pub scopes_iff :
    (library : Library) (token : String) (db later : Database) (user : User)
    (needed granted : List String)
    → all is_scope granted ≡ true
    → user.scopes ≡ join comma granted
    → (require_scopes library needed token db later ≡ responds user)
      ↔ (Authenticated library token db later user × (all (λ s. contains s granted) needed ≡ true))
scopes_iff library token db later user needed granted names column = (
  scopes-ok library token db later user needed granted names column,
  ok-scopes library token db later user needed granted names column,
)
