-- ===== src/Cli/Migrate/Refusals.antt =====
-- When a command on the database does nothing.
use h4ckrth0n.Prelude.{◌≡◌, refl, inl, inr, String, true, false, Option, [], ◌∷◌, ◌==◌, Bool-cases}
use h4ckrth0n.Result.{ok, err, packaged_migrations_error}
use h4ckrth0n.Migrations.{
  Act, Alembic, Url, sync_url, normalize_db_url_for_sync, packaged_migrations_dir,
  run_upgrade_to_head, run_upgrade_to_head_sync,
}
use h4ckrth0n.Migrations.Urls.{normalize-normalize}
use h4ckrth0n.Cli.{Exit, exits, exit_bad_args}
use h4ckrth0n.Cli.Migrate.{
  exit_migrations_missing, missing_message, get_db_url, cmd_db_migrate_upgrade,
  cmd_db_migrate_downgrade, cmd_db_migrate_current, cmd_db_migrate_heads, upgrade_to, downgrade_to,
}

-- Without --yes neither an upgrade nor a downgrade runs: the exit code is that of bad arguments, and
-- nothing is changed, whatever the URL and the packaged files are.
pub unconfirmed_migrations_do_nothing :
    {W : Type 0} (lib : Alembic W) (revision : String) (db env : Option String) (w : W)
    → (cmd_db_migrate_upgrade lib false revision db env w
        ≡ (ok (exits exit_bad_args ("--yes is required for mutating commands" ∷ [])), w))
      × (cmd_db_migrate_downgrade lib false revision db env w
          ≡ (ok (exits exit_bad_args ("--yes is required for mutating commands" ∷ [])), w))
unfolding cmd_db_migrate_upgrade cmd_db_migrate_downgrade
unconfirmed_migrations_do_nothing lib revision db env w = (refl, refl)

module _ {W : Type 0} (lib : Alembic W) (n : String) (db env : Option String)
    (reads : (u : Url)
      → lib.urls.make_url (get_db_url db env) ≡ ok u
      → lib.urls.make_url (lib.urls.render (sync_url u)) ≡ ok (sync_url u))
    (normal : normalize_db_url_for_sync lib.urls (get_db_url db env) ≡ ok n)
    (missing : packaged_migrations_dir lib ≡ err packaged_migrations_error) where
  -- Ends with the code for missing migrations, and changes nothing.
  abbrev Misses : {A : Type 0} → Act W (Exit A) → Type 0
  Misses command =
      (w : W) → command w ≡ (ok (exits exit_migrations_missing (missing_message ∷ [])), w)

  -- Without the packaged files every migration command with a confirmation ends with the exit code for
  -- missing migrations, and changes nothing: an upgrade to head or elsewhere, a downgrade to a
  -- revision, and the two that show revisions.
  pub missing_migrations_exit :
      (revision : String) (current heads : String → Act W (Unit {0}))
      → revision == "" ≡ false
      → Misses (cmd_db_migrate_upgrade lib true revision db env)
        × Misses (cmd_db_migrate_downgrade lib true revision db env)
        × Misses (cmd_db_migrate_current lib current db env)
        × Misses (cmd_db_migrate_heads lib heads db env)
  unfolding cmd_db_migrate_upgrade cmd_db_migrate_downgrade cmd_db_migrate_current
      cmd_db_migrate_heads downgrade_to upgrade_to run_upgrade_to_head run_upgrade_to_head_sync
  missing_migrations_exit revision current heads given =
      (up, λ w. rw (normal, given, missing), λ w. rw (normal, missing), λ w. rw (normal, missing))
    where
      again : normalize_db_url_for_sync lib.urls n ≡ ok n
      again = normalize-normalize lib.urls (get_db_url db env) n reads normal

      up : Misses (cmd_db_migrate_upgrade lib true revision db env)
      up w = elim (Bool-cases (revision == "head")) [
        | inl e ↦ rw (normal, e, again, missing)
        | inr e ↦ rw (normal, e, missing)
      ]
