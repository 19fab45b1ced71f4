-- ===== src/Auth/Dependencies.antt =====
-- src/h4ckath0n/auth/dependencies.py: the dependencies that protect endpoints. FastAPI's `HTTPBearer`
-- hands them the token of the request. Each opens a session of its own, so a request meets two
-- states of the database: at the verification and at the reading of the user.
pub mod Access
use Prim.Native.Char.{Char}
use h4ckrth0n.Prelude.{
  String, Bool, true, false, not, Option, none, some, List, [], ◌∷◌, ◌==◌, first, select, contains,
  if◌then◌else◌,
}
use h4ckrth0n.Text.{append}
use h4ckrth0n.Text.Split.{split}
use h4ckrth0n.Json.{str}
use h4ckrth0n.Models.{User}
use h4ckrth0n.Db.{Database}
use h4ckrth0n.Http.{Http, responds, http_exception, unprocessable, crashes, ◌>>=◌}
use h4ckrth0n.Auth.Jwt.{
  Library, Verdict, accepted, auth_error, crashed, AuthContext, verify_device_jwt, aud_http,
}

-- `except AuthError as exc: raise HTTPException(401, exc.detail)`
abbrev pub or_401 : Verdict AuthContext → Http AuthContext
or_401 (accepted ctx) = responds ctx
or_401 (auth_error detail) = http_exception 401 (str detail)
or_401 crashed = crashes

abbrev pub user_or_401 : Option User → Http User
user_or_401 none = http_exception 401 (str "User not found")
user_or_401 (some user) = responds user

abbrev pub comma : Char
comma = ","

-- `[s for s in user.scopes.split(",") if s]`
unfoldable pub user_scopes : User → List String
unfolding split select
user_scopes user = select (λ s. not (s == "")) (split comma user.scopes)

-- The loop over the needed scopes.
unfoldable pub scoped : List String → List String → User → Http User
unfolding contains append
scoped [] granted user = responds user
scoped (s ∷ needed) granted user =
    let rest = scoped needed granted user in
    if contains s granted then rest else http_exception 403 (str (append "Missing scope: " s))

module _ (library : Library) where
  unfoldable pub get_auth_context : String → Database → Http AuthContext
  unfolding verify_device_jwt
  get_auth_context token db = or_401 (verify_device_jwt library token aud_http db)

  unfoldable pub get_current_user : AuthContext → Database → Http User
  unfolding first
  get_current_user ctx db = user_or_401 (first (λ u. u.id == ctx.user_id) db.users)

  unfoldable pub require_user : String → Database → Database → Http User
  unfolding get_auth_context get_current_user
  require_user token db later = do ctx ← get_auth_context token db; get_current_user ctx later

  unfoldable pub require_admin : String → Database → Database → Http User
  unfolding require_user
  require_admin token db later = do
    user ← require_user token db later
    if user.role == "admin" then responds user else http_exception 403 (str "Admin required")

  unfoldable pub require_scopes : List String → String → Database → Database → Http User
  unfolding require_user scoped user_scopes
  require_scopes needed token db later = do
    user ← require_user token db later
    scoped needed (user_scopes user) user
