-- ===== src/Cli/Migrate.antt =====
-- The commands on the database of src/h4ckath0n/cli.py: ping and migrations. `db` is the value of
-- --db, and `env` what H4CKATH0N_DATABASE_URL is set to. What Alembic prints itself is not modelled.
pub mod Refusals
use h4ckrth0n.Prelude.{ℕ, String, Bool, not, Option, none, some, List, [], ◌∷◌, ◌==◌, if◌then◌else◌}
use h4ckrth0n.Result.{Result, ok, err, packaged_migrations_error}
use h4ckrth0n.Migrations.{
  Act, Alembic, SchemaStatus, ◌>>=◌, ◌>>◌, lift, normalize_db_url_for_sync, packaged_migrations_dir,
  get_schema_status, run_upgrade_to_head,
}
use h4ckrth0n.Cli.{Exit, output, exits, exit_bad_args, is_given}

abbrev pub exit_migrations_missing : ℕ
exit_migrations_missing = 4

abbrev pub missing_message : String
missing_message = "packaged migrations not found; installation may be broken"

abbrev text_or : String → Option String → String
text_or default none = default
text_or default (some s) = s

unfoldable pub get_db_url : Option String → Option String → String
get_db_url db env = if is_given db then text_or "" db else text_or "sqlite:///./h4ckath0n.db" env

module _ {W : Type 0} where
  abbrev finished : {A B : Type 0} → (A → B) → Result A × W → Result (Exit B) × W
  finished report (ok a, w) = (ok (output (report a)), w)
  finished report (err packaged_migrations_error, w) =
      (ok (exits exit_migrations_missing (missing_message ∷ [])), w)
  finished report (err e, w) = (err e, w)

  -- `try`, with the report of what was done, and the exit code for missing packaged files.
  abbrev pub reporting : {A B : Type 0} → Act W A → (A → B) → Act W (Exit B)
  reporting m report w = finished report (m w)

  abbrev pub confirmed_by : {A : Type 0} → Bool → Act W (Exit A) → Act W (Exit A)
  confirmed_by yes' command =
      if yes'
      then command
      else lift (ok (exits exit_bad_args ("--yes is required for mutating commands" ∷ [])))

  unfoldable pub cmd_db_ping :
      Alembic W
      → (String → Act W (Unit {0}))
      → Option String
      → Option String
      → Act W (Exit SchemaStatus)
  cmd_db_ping lib select_one db env = do
    url ← lift (normalize_db_url_for_sync lib.urls (get_db_url db env))
    select_one url
    reporting (get_schema_status lib url) (λ status. status)

  unfoldable pub upgrade_to : Alembic W → String → String → Act W (Unit {0})
  upgrade_to lib url revision =
      if revision == "head"
      then run_upgrade_to_head lib url >> lift (ok tt)
      else lift (packaged_migrations_dir lib) >> lib.upgrade url revision

  -- The report is the revision.
  unfoldable pub cmd_db_migrate_upgrade :
      Alembic W → Bool → String → Option String → Option String → Act W (Exit String)
  cmd_db_migrate_upgrade lib confirmed revision db env = confirmed_by confirmed do
    url ← lift (normalize_db_url_for_sync lib.urls (get_db_url db env))
    reporting (upgrade_to lib url revision) (λ _. revision)

  unfoldable pub downgrade_to : Alembic W → String → String → Act W (Exit String)
  downgrade_to lib url revision =
      if revision == ""
      then lift (ok (exits exit_bad_args ("--to is required for downgrade" ∷ [])))
      else reporting (lift (packaged_migrations_dir lib) >> lib.downgrade url revision)
          (λ _. revision)

  unfoldable pub cmd_db_migrate_downgrade :
      Alembic W → Bool → String → Option String → Option String → Act W (Exit String)
  cmd_db_migrate_downgrade lib confirmed revision db env = confirmed_by confirmed do
    url ← lift (normalize_db_url_for_sync lib.urls (get_db_url db env))
    downgrade_to lib url revision

  -- `current` and `heads` stand for Alembic's commands of these names, which print.
  unfoldable pub cmd_db_migrate_current :
      Alembic W
      → (String → Act W (Unit {0}))
      → Option String
      → Option String
      → Act W (Exit (Unit {0}))
  cmd_db_migrate_current lib current db env = do
    url ← lift (normalize_db_url_for_sync lib.urls (get_db_url db env))
    reporting (lift (packaged_migrations_dir lib) >> current url) (λ _. tt)

  unfoldable pub cmd_db_migrate_heads :
      Alembic W
      → (String → Act W (Unit {0}))
      → Option String
      → Option String
      → Act W (Exit (Unit {0}))
  cmd_db_migrate_heads lib heads db env = do
    url ← lift (normalize_db_url_for_sync lib.urls (get_db_url db env))
    reporting (lift (packaged_migrations_dir lib) >> heads url) (λ _. tt)
