-- ===== src/App/Startup/Decided.antt =====
-- Which starts go through, with the upgrade enabled.
use h4ckrth0n.Prelude.{
  ◌≡◌, ◌↔◌, ◌⊎◌, inl, inr, refl, sym, subst, String, Bool, true, false, none, some, List, [], ◌∷◌,
  ◌++◌, ◌==◌, Bool-cases, Option,
}
use h4ckrth0n.Result.{
  Error, Result, ok, err, value_error, runtime_error, packaged_migrations_error, attribute_error,
  integrity_error, last_passkey_error, library_error,
}
use h4ckrth0n.Config.{Settings}
use h4ckrth0n.Migrations.{Act, Alembic, SchemaStatus, get_schema_status, run_upgrade_to_head}
use h4ckrth0n.App.{
  Log, warning, exception, completed, not_found, failed, inner, after_upgrade, after_status,
  startup,
}
use h4ckrth0n.App.Startup.{opening, auto_upgrade-lem, check_schema-lem, starts}

-- It returned, or found no packaged migrations.
abbrev pub is_tolerated : {A : Type 0} → Result A → Bool
is_tolerated (ok a) = true
is_tolerated (err packaged_migrations_error) = true
is_tolerated (err _) = false

-- How a step ends whose exceptions are looked at, on a world that it leaves.
abbrev Ends : {W : Type 0} → Bool → W → Result (Unit {0}) × (W × List Log) → Type 0
Ends {W} true w out = (log : List Log) × (out ≡ (ok tt, (w, log)))
Ends {W} false w out = (e : Error) × (log : List Log) × (out ≡ (err e, (w, log)))

after_upgrade-Ends :
    {W : Type 0} (r : Result SchemaStatus) (w : W) (log : List Log)
    → Ends (is_tolerated r) w (after_upgrade r (w, log))
after_upgrade-Ends (ok s) w log = (log ++ warning completed ∷ [], refl)
after_upgrade-Ends (err packaged_migrations_error) w log = (log ++ warning not_found ∷ [], refl)
after_upgrade-Ends (err (value_error m)) w log = (value_error m, log ++ exception failed ∷ [], refl)
after_upgrade-Ends (err (runtime_error m)) w log =
    (runtime_error m, log ++ exception failed ∷ [], refl)
after_upgrade-Ends (err (attribute_error m)) w log =
    (attribute_error m, log ++ exception failed ∷ [], refl)
after_upgrade-Ends (err integrity_error) w log =
    (integrity_error, log ++ exception failed ∷ [], refl)
after_upgrade-Ends (err last_passkey_error) w log =
    (last_passkey_error, log ++ exception failed ∷ [], refl)
after_upgrade-Ends (err (library_error m)) w log =
    (library_error m, log ++ exception failed ∷ [], refl)

warned :
    {W : Type 0} (s : SchemaStatus) (o : Option String) (w : W) (log : List Log)
    → s.warning ≡ o
    → Ends true w (after_status (ok s) (w, log))
warned s none w log e = (log, rw e refl)
warned s (some text) w log e = elim (Bool-cases (text == "")) [
  | inl b ↦ (log, rw (e, b) refl)
  | inr b ↦ (log ++ warning text ∷ [], rw (e, b) refl)
]

after_status-Ends :
    {W : Type 0} (r : Result SchemaStatus) (w : W) (log : List Log)
    → Ends (is_tolerated r) w (after_status r (w, log))
after_status-Ends (ok s) w log = warned s s.warning w log refl
after_status-Ends (err packaged_migrations_error) w log = (log ++ warning not_found ∷ [], refl)
after_status-Ends (err (value_error m)) w log = (value_error m, log, refl)
after_status-Ends (err (runtime_error m)) w log = (runtime_error m, log, refl)
after_status-Ends (err (attribute_error m)) w log = (attribute_error m, log, refl)
after_status-Ends (err integrity_error) w log = (integrity_error, log, refl)
after_status-Ends (err last_passkey_error) w log = (last_passkey_error, log, refl)
after_status-Ends (err (library_error m)) w log = (library_error m, log, refl)

module _ {W : Type 0} (settings : Settings) (lib : Alembic W) (create_all : Act W (Unit {0})) where
  -- The upgrade, the status after it and the creation of the tables after that.
  abbrev pub upgrade : W → Result SchemaStatus × W
  upgrade w = run_upgrade_to_head lib settings.database_url w

  abbrev pub status : W → Result SchemaStatus × W
  status w = get_schema_status lib settings.database_url (upgrade w).1

  abbrev Decision : W → Result (Unit {0}) → Type 0
  Decision w r = (r ≡ ok tt) ↔ (
      (is_tolerated (upgrade w).0 ≡ true)
      × (is_tolerated (status w).0 ≡ true)
      × ((create_all (status w).1).0 ≡ ok tt))

  fails :
      (w : W) (e : Error)
      → (is_tolerated (upgrade w).0 ≡ false) ⊎ (is_tolerated (status w).0 ≡ false)
      → Decision w (err e)
  fails w e (inl f) = ((λ h. absurd cc), (λ h. absurd (let t = h.0 in cc)))
  fails w e (inr f) = ((λ h. absurd cc), (λ h. absurd (let t = h.1 in cc)))

  -- The start from the outcomes of the upgrade and of the status.
  decided :
      (w : W) (log : List Log) (a b : Bool)
      → settings.auto_upgrade ≡ true
      → is_tolerated (upgrade w).0 ≡ a
      → is_tolerated (status w).0 ≡ b
      → Ends a (upgrade w).1 (after_upgrade (upgrade w).0 ((upgrade w).1, opening settings log))
      → ((l : List Log) → Ends b (status w).1 (after_status (status w).0 ((status w).1, l)))
      → Decision w (startup settings lib create_all (w, log)).0
  decided w log false b enabled f g (e, l, ends) checks =
      let out : startup settings lib create_all (w, log) ≡ (err e, ((upgrade w).1, l)) =
        starts settings lib create_all (w, log) true _ enabled
          (rw (auto_upgrade-lem settings lib w log (upgrade w).0 (upgrade w).1 refl, ends)) in
      subst (λ o. Decision w o.0) (sym out) (fails w e (inl f))
  decided w log true false enabled f g (l, ends) checks =
      let (e, m, checked) = checks l in
      let out : startup settings lib create_all (w, log) ≡ (err e, ((status w).1, m)) =
        starts settings lib create_all (w, log) true _ enabled
          (rw (
            auto_upgrade-lem settings lib w log (upgrade w).0 (upgrade w).1 refl,
            ends,
            check_schema-lem settings lib (upgrade w).1 l (status w).0 (status w).1 refl,
            checked,
          )) in
      subst (λ o. Decision w o.0) (sym out) (fails w e (inr g))
  decided w log true true enabled f g (l, ends) checks =
      let (m, checked) = checks l in
      let out : startup settings lib create_all (w, log) ≡ inner create_all ((status w).1, m) =
        starts settings lib create_all (w, log) true _ enabled
          (rw (
            auto_upgrade-lem settings lib w log (upgrade w).0 (upgrade w).1 refl,
            ends,
            check_schema-lem settings lib (upgrade w).1 l (status w).0 (status w).1 refl,
            checked,
          )) in
      subst (λ o. Decision w o.0) (sym out) ((λ h. (f, g, h)), (λ h. h.2))

  -- With the upgrade enabled, the start returns exactly if the upgrade and the status after it each
  -- return or find no packaged migrations, and the tables are created then. So a failing upgrade of any
  -- other kind stops it.
  pub start_decided :
      (w : W) (log : List Log)
      → settings.auto_upgrade ≡ true
      → ((startup settings lib create_all (w, log)).0 ≡ ok tt) ↔ (
          (is_tolerated (upgrade w).0 ≡ true)
          × (is_tolerated (status w).0 ≡ true)
          × ((create_all (status w).1).0 ≡ ok tt))
  start_decided w log enabled =
      decided w log _ _ enabled refl refl
        (after_upgrade-Ends (upgrade w).0 (upgrade w).1 (opening settings log))
        (λ l. after_status-Ends (status w).0 (status w).1 l)
