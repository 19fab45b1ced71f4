-- ===== src/Migrations.antt =====
-- src/h4ckath0n/db/migrations/runtime.py: the database URL for synchronous tools, the status of the
-- schema and the upgrade. SQLAlchemy's URLs and Alembic, with the database behind them, are arguments;
-- `W` is what Alembic can change.
pub mod Order
pub mod Urls
pub mod Status
pub mod Upgrade
use Prim.Native.Char.{Char, code}
use Prim.Native.String
use h4ckrth0n.Prelude.{
  ℕ, String, Bool, true, false, not, ◌&&◌, ◌||◌, Option, none, some, List, [], ◌∷◌, ◌==◌, ltb, eqb,
  if◌then◌else◌, contains, select, all,
}
use h4ckrth0n.Result.{Result, ok, err, packaged_migrations_error}
use h4ckrth0n.Text.{append}
use h4ckrth0n.Text.Lines.{concat}

-- SQLAlchemy's URL. A query value is a text or several.
pub record Url : Type 0 where
  pub drivername : String
  pub username : Option String
  pub password : Option String
  pub host : Option String
  pub port : Option ℕ
  pub database : Option String
  pub query : List (String × List String)

-- `make_url` and `render_as_string(hide_password=False)`.
pub record UrlLibrary : Type 0 where
  pub make_url : String → Result Url
  pub render : Url → String

unfoldable pub sync_driver : String → String
sync_driver drivername =
    if drivername == "sqlite+aiosqlite"
    then "sqlite"
    else if drivername == "postgresql+asyncpg"
    then "postgresql+psycopg"
    else if drivername == "postgresql" || drivername == "postgres"
    then "postgresql+psycopg"
    else drivername

abbrev pub asyncpg_only_query_keys : List String
asyncpg_only_query_keys = "prepared_statement_cache_size" ∷ "prepared_statement_name_func" ∷ []

abbrev pub is_kept : String × List String → Bool
is_kept (key, values) = not (contains key asyncpg_only_query_keys)

unfoldable pub sync_url : Url → Url
unfolding sync_driver
sync_url parsed =
    let driver = sync_driver parsed.drivername in
    record parsed {
      drivername = driver;
      query = if driver == "postgresql+psycopg" then select is_kept parsed.query else parsed.query;
    }

abbrev rendered : UrlLibrary → Result Url → Result String
rendered lib (ok parsed) = ok (lib.render (sync_url parsed))
rendered lib (err e) = err e

unfoldable pub normalize_db_url_for_sync : UrlLibrary → String → Result String
unfolding sync_url
normalize_db_url_for_sync lib url = rendered lib (lib.make_url url)

-- The order of Python's texts, by the numbers of their characters.
unfoldable pub text_leb : String → String → Bool
text_leb String.[] t = true
text_leb (String.◌∷◌ c s) String.[] = false
text_leb (String.◌∷◌ c s) (String.◌∷◌ d t) =
    let rest = text_leb s t in if eqb (code c) (code d) then rest else ltb (code c) (code d)

unfoldable pub insert : String → List String → List String
insert x [] = x ∷ []
insert x (y ∷ ys) = let rest = insert x ys in if text_leb x y then x ∷ y ∷ ys else y ∷ rest

unfoldable pub sorted : List String → List String
unfolding insert
sorted [] = []
sorted (x ∷ xs) = insert x (sorted xs)

-- `set(xs) == set(ys)`
unfoldable pub same_set : List String → List String → Bool
same_set xs ys = all (λ x. contains x ys) xs && all (λ y. contains y xs) ys

pub record SchemaStatus : Type 0 where
  pub state : String
  pub current_revisions : List String
  pub head_revisions : List String
  pub warning : Option String

-- How a list of revisions is shown. A revision identifier has no quote and no backslash.
unfoldable pub shown : List String → String
shown [] = ""
shown (r ∷ []) = concat ("'" ∷ r ∷ "'" ∷ [])
shown (r ∷ s ∷ rs) = concat ("'" ∷ r ∷ "', " ∷ shown (s ∷ rs) ∷ [])

unfoldable pub behind_warning : List String → List String → String
unfolding shown
behind_warning current head = concat (
    "database schema revision is behind code migrations; current=["
    ∷ shown current
    ∷ "] head=["
    ∷ shown head
    ∷ "]. run: h4ckath0n db migrate upgrade --to head --yes"
    ∷ [])

abbrev pub is_empty : List String → Bool
is_empty [] = true
is_empty (r ∷ rs) = false

abbrev status_as : String → List String → List String → Option String → SchemaStatus
status_as state current head warning = record {
  state = state;
  current_revisions = current;
  head_revisions = head;
  warning = warning;
}

unfoldable pub status_of : List String → List String → SchemaStatus
unfolding same_set behind_warning
status_of current head =
    if not (is_empty current) && same_set current head
    then status_as "at_head" current head none
    else if is_empty current
    then status_as "fresh" current head none
    else status_as "behind" current head (some (behind_warning current head))

-- A step on the world that returns or raises.
abbrev pub Act : Type 0 → Type 0 → Type 0
Act W A = W → Result A × W

-- The packaged files, and what Alembic and the database do with a URL: the heads of the scripts, the
-- heads that the version table of the database names, and the runs of the migrations.
pub record Alembic (W : Type 0) : Type 0 where
  pub urls : UrlLibrary
  pub has_env_py : Bool
  pub has_versions : Bool
  pub get_heads : Result (List String)
  pub get_current_heads : String → Act W (List String)
  pub upgrade : String → String → Act W (Unit {0})
  pub downgrade : String → String → Act W (Unit {0})

module _ {W : Type 0} where
  abbrev pub lift : {A : Type 0} → Result A → Act W A
  lift r w = (r, w)

  abbrev bind_step : {A B : Type 0} → (A → Act W B) → Result A × W → Result B × W
  bind_step f (ok a, w) = f a w
  bind_step f (err e, w) = (err e, w)

  infixl 5 ◌>>=◌ ◌>>◌
  abbrev pub ◌>>=◌ : {A B : Type 0} → Act W A → (A → Act W B) → Act W B
  ◌>>=◌ m f w = bind_step f (m w)

  abbrev pub ◌>>◌ : {A B : Type 0} → Act W A → Act W B → Act W B
  ◌>>◌ m k w = bind_step (λ _. k) (m w)

module _ {W : Type 0} (lib : Alembic W) where
  unfoldable pub packaged_migrations_dir : Result (Unit {0})
  packaged_migrations_dir =
      if not lib.has_env_py || not lib.has_versions then err packaged_migrations_error else ok tt

  unfoldable pub get_schema_status : String → Act W SchemaStatus
  get_schema_status db_url = do
    url ← lift (normalize_db_url_for_sync lib.urls db_url)
    lift packaged_migrations_dir
    heads ← lift lib.get_heads
    current ← lib.get_current_heads url
    lift (ok (status_of (sorted current) (sorted heads)))

  unfoldable pub run_upgrade_to_head_sync : String → Act W SchemaStatus
  run_upgrade_to_head_sync db_url = do
    url ← lift (normalize_db_url_for_sync lib.urls db_url)
    lift packaged_migrations_dir
    lib.upgrade url "head"
    get_schema_status url

  unfoldable pub run_upgrade_to_head : String → Act W SchemaStatus
  run_upgrade_to_head db_url = run_upgrade_to_head_sync db_url

  unfoldable pub run_upgrade_to_head_async : String → Act W SchemaStatus
  run_upgrade_to_head_async db_url = do
    url ← lift (normalize_db_url_for_sync lib.urls db_url)
    run_upgrade_to_head_sync url
