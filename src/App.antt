-- ===== src/App.antt =====
-- src/h4ckath0n/app.py: the routers of the application and what it does before it serves. The
-- creation of the tables is SQLAlchemy's; the log is the list of its lines.
pub mod Startup
use h4ckrth0n.Prelude.{
  String, Bool, true, false, Option, none, some, List, [], ◌∷◌, ◌++◌, ◌==◌, if◌then◌else◌,
}
use h4ckrth0n.Result.{Error, Result, ok, err, packaged_migrations_error}
use h4ckrth0n.Config.{Settings}
use h4ckrth0n.Migrations.{
  Act, Alembic, SchemaStatus, ◌>>=◌, ◌>>◌, lift, get_schema_status, run_upgrade_to_head,
}

pub data Router : Type 0 where
  passkey_router passkeys_router password_router : Router

-- The routers in the order in which they are included. Getting the password router raises nothing.
unfoldable pub routers : Settings → List Router
routers settings =
    passkey_router
    ∷ passkeys_router
    ∷ (if settings.password_auth_enabled then password_router ∷ [] else [])

pub data Log : Type 0 where
  warning exception : String → Log

abbrev pub in_production : String
in_production =
    "H4CKATH0N_AUTO_UPGRADE is enabled in production; this is an explicit operator decision."

abbrev pub completed : String
completed = "database schema auto-upgrade completed to migration head"

abbrev pub not_found : String
not_found = "packaged migrations not found; installation may be broken"

abbrev pub failed : String
failed = "database auto-upgrade failed"

-- A step of the start: on the world and the log.
abbrev pub Boot : Type 0 → Type 0 → Type 0
Boot W A = Act (W × List Log) A

module _ {W : Type 0} where
  abbrev with_log : {A : Type 0} → List Log → Result A × W → Result A × (W × List Log)
  with_log log (r, w) = (r, (w, log))

  abbrev pub inner : {A : Type 0} → Act W A → Boot W A
  inner m (w, log) = with_log log (m w)

  abbrev pub note : Log → Boot W (Unit {0})
  note line (w, log) = (ok tt, (w, log ++ line ∷ []))

  abbrev handled :
      {A B : Type 0} → (Result A → Boot W B) → Result A × (W × List Log) → Result B × (W × List Log)
  handled after (r, s) = after r s

  -- `try`, with what is done in each case.
  abbrev pub attempt : {A B : Type 0} → Boot W A → (Result A → Boot W B) → Boot W B
  attempt m after s = handled after (m s)

  abbrev pub after_upgrade : Result SchemaStatus → Boot W (Unit {0})
  after_upgrade (ok status) = note (warning completed)
  after_upgrade (err packaged_migrations_error) = note (warning not_found)
  after_upgrade (err e) = do note (exception failed); lift (err e)

  abbrev warn : Option String → Boot W (Unit {0})
  warn none = lift (ok tt)
  warn (some text) = if text == "" then lift (ok tt) else note (warning text)

  abbrev pub after_status : Result SchemaStatus → Boot W (Unit {0})
  after_status (ok status) = warn status.warning
  after_status (err packaged_migrations_error) = note (warning not_found)
  after_status (err e) = lift (err e)

  -- The start of `lifespan`, up to its `yield`.
  unfoldable pub auto_upgrade : Settings → Alembic W → Boot W (Unit {0})
  auto_upgrade settings lib = do
    if settings.env == "production" then note (warning in_production) else lift (ok tt)
    attempt (inner (run_upgrade_to_head lib settings.database_url)) after_upgrade

  unfoldable pub check_schema : Settings → Alembic W → Boot W (Unit {0})
  check_schema settings lib =
      attempt (inner (get_schema_status lib settings.database_url)) after_status

  unfoldable pub startup : Settings → Alembic W → Act W (Unit {0}) → Boot W (Unit {0})
  startup settings lib create_all = do
    if settings.auto_upgrade then auto_upgrade settings lib else lift (ok tt)
    check_schema settings lib
    inner create_all
