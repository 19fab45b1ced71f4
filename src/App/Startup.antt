-- ===== src/App/Startup.antt =====
-- How the application starts with its database.
pub mod Decided
use h4ckrth0n.Prelude.{
  ◌≡◌, ◌≢◌, refl, sym, subst, ◌∙◌, inl, inr, String, Bool, true, false, none, List, [], ◌∷◌, ◌++◌,
  ◌==◌, Bool-cases, Option-cases, if◌then◌else◌,
}
use h4ckrth0n.Result.{
  Error, Result, ok, err, value_error, runtime_error, packaged_migrations_error, attribute_error,
  integrity_error, last_passkey_error, library_error,
}
use h4ckrth0n.Config.{Settings}
use h4ckrth0n.Migrations.{
  Act, Alembic, Url, sync_url, SchemaStatus, normalize_db_url_for_sync, packaged_migrations_dir,
  get_schema_status, run_upgrade_to_head, run_upgrade_to_head_sync, is_empty, ◌>>◌, lift,
}
use h4ckrth0n.Migrations.Status.{SameRevisions, schema_status_decides}
use h4ckrth0n.Migrations.Upgrade.{upgrade_ends_at_head}
use h4ckrth0n.App.{
  Log, warning, exception, in_production, completed, not_found, failed, Boot, inner, after_upgrade,
  after_status, auto_upgrade, check_schema, startup,
}

-- The log once an upgrade is about to run.
unfoldable pub opening : Settings → List Log → List Log
opening settings log =
    if settings.env == "production" then log ++ warning in_production ∷ [] else log

status_missing :
    {W : Type 0} (lib : Alembic W) (url n : String) (w : W)
    → normalize_db_url_for_sync lib.urls url ≡ ok n
    → packaged_migrations_dir lib ≡ err packaged_migrations_error
    → get_schema_status lib url w ≡ (err packaged_migrations_error, w)
unfolding get_schema_status
status_missing lib url n w normal missing = rw (normal, missing)

upgrade_missing :
    {W : Type 0} (lib : Alembic W) (url n : String) (w : W)
    → normalize_db_url_for_sync lib.urls url ≡ ok n
    → packaged_migrations_dir lib ≡ err packaged_migrations_error
    → run_upgrade_to_head lib url w ≡ (err packaged_migrations_error, w)
unfolding run_upgrade_to_head run_upgrade_to_head_sync
upgrade_missing lib url n w normal missing = rw (normal, missing)

module _ {W : Type 0} (settings : Settings) (lib : Alembic W) where
  pub auto_upgrade-lem :
      (w : W) (log : List Log) (r : Result SchemaStatus) (w' : W)
      → run_upgrade_to_head lib settings.database_url w ≡ (r, w')
      → auto_upgrade settings lib (w, log) ≡ after_upgrade r (w', opening settings log)
  unfolding auto_upgrade opening
  auto_upgrade-lem w log r w' h = elim (Bool-cases (settings.env == "production")) [
    | inl e ↦ rw (e, h)
    | inr e ↦ rw (e, h)
  ]

  pub check_schema-lem :
      (w : W) (log : List Log) (r : Result SchemaStatus) (w' : W)
      → get_schema_status lib settings.database_url w ≡ (r, w')
      → check_schema settings lib (w, log) ≡ after_status r (w', log)
  unfolding check_schema
  check_schema-lem w log r w' h = rw h

  quiet_status :
      (t : SchemaStatus) (w : W) (log : List Log)
      → t.warning ≡ none
      → after_status (ok t) (w, log) ≡ (ok tt, (w, log))
  quiet_status t w log quiet = rw quiet

  -- The start, where it has been tested whether the upgrade is enabled.
  abbrev pub starts_with : Bool → Act W (Unit {0}) → Boot W (Unit {0})
  starts_with enabled create_all = do
    if enabled then auto_upgrade settings lib else lift (ok tt)
    check_schema settings lib
    inner create_all

  pub starts :
      (create_all : Act W (Unit {0})) (s : W × List Log) (enabled : Bool) (out : _)
      → settings.auto_upgrade ≡ enabled
      → starts_with enabled create_all s ≡ out
      → startup settings lib create_all s ≡ out
  unfolding startup
  starts create_all s enabled out e h = subst (λ b. starts_with b create_all s ≡ out) (sym e) h

  -- Without the packaged files the application starts all the same: the log says so, once for the
  -- upgrade if it is enabled and once for the status, and the tables are created on an unchanged
  -- database.
  pub missing_migrations_start :
      (create_all : Act W (Unit {0})) (n : String) (w : W) (log : List Log)
      → normalize_db_url_for_sync lib.urls settings.database_url ≡ ok n
      → packaged_migrations_dir lib ≡ err packaged_migrations_error
      → startup settings lib create_all (w, log)
        ≡ inner create_all (
          w,
          (if settings.auto_upgrade then opening settings log ++ warning not_found ∷ [] else log)
              ++ warning not_found ∷ [],
        )
  missing_migrations_start create_all n w log normal missing =
      starts create_all (w, log) settings.auto_upgrade _ refl (either settings.auto_upgrade)
    where
      no_status :
          (log : List Log)
          → check_schema settings lib (w, log) ≡ (ok tt, (w, log ++ warning not_found ∷ []))
      no_status log =
          check_schema-lem w log (err packaged_migrations_error) w
            (status_missing lib settings.database_url n w normal missing)

      no_upgrade :
          auto_upgrade settings lib (w, log)
          ≡ (ok tt, (w, opening settings log ++ warning not_found ∷ []))
      no_upgrade =
          auto_upgrade-lem w log (err packaged_migrations_error) w
            (upgrade_missing lib settings.database_url n w normal missing)

      either :
          (enabled : Bool)
          → starts_with enabled create_all (w, log)
            ≡ inner create_all (
              w,
              (if enabled then opening settings log ++ warning not_found ∷ [] else log)
                  ++ warning not_found ∷ [],
            )
      either true = rw (no_upgrade, no_status (opening settings log ++ warning not_found ∷ []))
      either false = rw (no_status log)

  -- With the upgrade enabled, where Alembic's upgrade to head brings the database to the heads of the
  -- scripts and the tables are created, the start returns; and it logs no warning on the schema: its
  -- lines are that the upgrade completed and, in production, before it, that the operator enabled it.
  pub enabled_upgrade_starts :
      (create_all : Act W (Unit {0})) (n : String) (heads current : List String) (w w' w'' : W)
      (log : List Log)
      → ((u : Url)
          → lib.urls.make_url settings.database_url ≡ ok u
          → lib.urls.make_url (lib.urls.render (sync_url u)) ≡ ok (sync_url u))
      → normalize_db_url_for_sync lib.urls settings.database_url ≡ ok n
      → packaged_migrations_dir lib ≡ ok tt
      → lib.get_heads ≡ ok heads
      → is_empty current ≡ false
      → lib.upgrade n "head" w ≡ (ok tt, w')
      → lib.get_current_heads n w' ≡ (ok current, w')
      → SameRevisions current heads
      → create_all w' ≡ (ok tt, w'')
      → settings.auto_upgrade ≡ true
      → startup settings lib create_all (w, log)
        ≡ (ok tt, (w'', opening settings log ++ warning completed ∷ []))
  enabled_upgrade_starts create_all n heads current w w' w'' log reads normal packaged scripts
        some_head upgraded answered same creates enabled =
      let (s, done, _, _) =
        upgrade_ends_at_head lib settings.database_url n heads current w w' reads normal packaged
          scripts some_head upgraded answered same in
      let (t, shown, (_, _, warns), _, _, _, _) =
        schema_status_decides lib settings.database_url n heads current w' w' normal packaged
          scripts answered in
      let log' = opening settings log ++ warning completed ∷ [] in
      let quiet : t.warning ≡ none = elim (Option-cases t.warning) [
        | inl e ↦ e
        | inr (text, e) ↦ absurd ((warns.0 (rw e)).1 same)
      ] in
      let checked : check_schema settings lib (w', log') ≡ (ok tt, (w', log')) =
        check_schema-lem w' log' (ok t) w' shown ∙ quiet_status t w' log' quiet in
      starts create_all (w, log) true _ enabled
        (rw (auto_upgrade-lem w log (ok s) w' done, checked, creates))
