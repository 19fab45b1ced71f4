-- ===== src/Examples/Runtime.antt =====
-- Runs of the migrations, the start of the application, the random streams and the LLM client.
use h4ckrth0n.Prelude.{
  ℕ, ◌+◌, ◌≡◌, ◌↔◌, ◌≤◌, refl, ap, String, true, false, not, ◌&&◌, none, some, List, [], ◌∷◌, ◌++◌,
  ◌==◌, length, ltb, if◌then◌else◌,
}
use h4ckrth0n.Models.{Bytes}
use h4ckrth0n.Result.{ok, err, library_error, packaged_migrations_error}
use h4ckrth0n.Config.{Settings}
use h4ckrth0n.Ids.Reader.{
  Entropy, Event, asks, forks, starts, start, replay, u64le, u64, all_new_children, is_new_child,
  step, random_bytes_in,
}
use h4ckrth0n.Ids.Reader.Invariant.{Apart}
use h4ckrth0n.Ids.Reader.Disjoint.{streams_not_reused}
use h4ckrth0n.Migrations.{
  Url, UrlLibrary, Alembic, Act, SchemaStatus, sync_url, normalize_db_url_for_sync,
  packaged_migrations_dir, get_schema_status, run_upgrade_to_head, run_upgrade_to_head_sync,
  run_upgrade_to_head_async,
}
use h4ckrth0n.Migrations.Order.{in_order}
use h4ckrth0n.Migrations.Status.{SameRevisions, Says, schema_status_decides}
use h4ckrth0n.Migrations.Upgrade.{async_upgrade_is_sync}
use h4ckrth0n.App.{warning, completed, startup}
use h4ckrth0n.App.Startup.Decided.{is_tolerated, upgrade, status, start_decided}
use h4ckrth0n.App.Startup.{opening, enabled_upgrade_starts}
use h4ckrth0n.Cli.{Exit, exits}
use h4ckrth0n.Cli.Migrate.{exit_migrations_missing, missing_message, get_db_url}
use h4ckrth0n.Llm.{calls, answered, CallEvent, serve_all, new_slots, none_wait}
use h4ckrth0n.Llm.Limit.{concurrency_bounds}
use h4ckrth0n.Examples.{settings}

abbrev entropy : Entropy
entropy = record { domain = 104 ∷ []; master_key = 1 ∷ 2 ∷ []; urandom = λ n. n ∷ [] }

abbrev shake : Bytes → ℕ → ℕ → Bytes
shake absorbed place n = []

-- A process forks between two reads, and the child reads as well, without the fork hook.
abbrev fork_history : List Event
fork_history =
    asks 10 1 20 ∷ forks 10 1 11 ∷ asks 11 1 20 ∷ asks 10 1 16 ∷ starts 10 2 ∷ asks 10 2 5 ∷ []

children : all_new_children shake entropy false start fork_history ≡ true
unfolding all_new_children is_new_child step random_bytes_in
children = refl

streams_not_reused_example : Apart (replay shake entropy false start fork_history).log
streams_not_reused_example =
    streams_not_reused shake entropy false fork_history (λ i j h. cc) children

-- A child that gets the identifier which the slot records reads the parent's bytes again.
repeated :
    (replay shake entropy false start (asks 10 1 20 ∷ forks 10 1 10 ∷ asks 10 1 20 ∷ [])).drawn ≡ 1
unfolding replay step random_bytes_in
repeated = refl

u64le_runs : u64le (u64 + 258) ≡ 2 ∷ 1 ∷ 0 ∷ 0 ∷ 0 ∷ 0 ∷ 0 ∷ 0 ∷ []
unfolding u64le
u64le_runs = refl

abbrev async_url : Url
async_url = record {
  drivername = "sqlite+aiosqlite";
  username = none;
  password = none;
  host = none;
  port = none;
  database = some "app.db";
  query = [];
}

abbrev urls : UrlLibrary
urls = record {
  make_url = λ s. if s == "sqlite:///app.db" then ok (sync_url async_url) else ok async_url;
  render = λ u. "sqlite:///app.db";
}

reads_back :
    (u : Url)
    → urls.make_url "sqlite+aiosqlite:///app.db" ≡ ok u
    → urls.make_url (urls.render (sync_url u)) ≡ ok (sync_url u)
reads_back u h = let same : async_url ≡ u = cc in ap (λ x. ok (sync_url x)) same

normal : normalize_db_url_for_sync urls "sqlite+aiosqlite:///app.db" ≡ ok "sqlite:///app.db"
unfolding normalize_db_url_for_sync
normal = refl

-- The database is the list of the revisions that its version table names.
abbrev alembic : Alembic (List String)
alembic = record {
  urls = urls;
  has_env_py = true;
  has_versions = true;
  get_heads = ok ("0002" ∷ []);
  get_current_heads = λ url w. (ok w, w);
  upgrade = λ url to w. (ok tt, "0002" ∷ []);
  downgrade = λ url to w. (ok tt, []);
}

packaged : packaged_migrations_dir alembic ≡ ok tt
unfolding packaged_migrations_dir
packaged = refl

schema_status_decides_example :
    (s : SchemaStatus) × (get_schema_status alembic "sqlite+aiosqlite:///app.db" ("0001" ∷ [])
      ≡ (ok s, "0001" ∷ []))
    × Says ("0001" ∷ []) ("0002" ∷ []) s
    × (in_order s.current_revisions ≡ true)
    × SameRevisions s.current_revisions ("0001" ∷ [])
    × (in_order s.head_revisions ≡ true)
    × SameRevisions s.head_revisions ("0002" ∷ [])
schema_status_decides_example =
    schema_status_decides alembic "sqlite+aiosqlite:///app.db" "sqlite:///app.db" ("0002" ∷ [])
      ("0001" ∷ []) ("0001" ∷ []) ("0001" ∷ []) normal packaged refl refl

async_upgrade_is_sync_example :
    run_upgrade_to_head_async alembic "sqlite+aiosqlite:///app.db" ("0001" ∷ [])
    ≡ run_upgrade_to_head alembic "sqlite+aiosqlite:///app.db" ("0001" ∷ [])
async_upgrade_is_sync_example =
    async_upgrade_is_sync alembic "sqlite+aiosqlite:///app.db" ("0001" ∷ []) reads_back

abbrev upgrading : Settings
upgrading = record settings { auto_upgrade = true; database_url = "sqlite+aiosqlite:///app.db" }

abbrev create_all : Act (List String) (Unit {0})
create_all w = (ok tt, w)

enabled_upgrade_starts_example :
    startup upgrading alembic create_all ([], [])
    ≡ (ok tt, ("0002" ∷ [], opening upgrading [] ++ warning completed ∷ []))
enabled_upgrade_starts_example =
    enabled_upgrade_starts upgrading alembic create_all "sqlite:///app.db" ("0002" ∷ [])
      ("0002" ∷ []) [] ("0002" ∷ []) ("0002" ∷ []) [] reads_back normal packaged refl refl refl refl
      (λ r. refl) refl refl

abbrev broken : Alembic (List String)
broken = record alembic { upgrade = λ url to w. (err (library_error "OperationalError"), w) }

raised :
    run_upgrade_to_head broken "sqlite+aiosqlite:///app.db" []
    ≡ (err (library_error "OperationalError"), [])
unfolding run_upgrade_to_head run_upgrade_to_head_sync normalize_db_url_for_sync
    packaged_migrations_dir
raised = refl

start_decided_example : ((startup upgrading broken create_all ([], [])).0 ≡ ok tt) ↔ (
    (is_tolerated (upgrade upgrading broken create_all []).0 ≡ true)
    × (is_tolerated (status upgrading broken create_all []).0 ≡ true)
    × ((create_all (status upgrading broken create_all []).1).0 ≡ ok tt))
start_decided_example = start_decided upgrading broken create_all [] [] refl

abbrev unpackaged : Alembic (List String)
unpackaged = record alembic { has_versions = false }

missing : packaged_migrations_dir unpackaged ≡ err packaged_migrations_error
unfolding packaged_migrations_dir
missing = refl

abbrev Misses : {A : Type 0} → Act (List String) (Exit A) → Type 0
Misses command =
    (w : List String) → command w ≡ (ok (exits exit_migrations_missing (missing_message ∷ [])), w)

abbrev shows : String → Act (List String) (Unit {0})
shows url w = (ok tt, w)

get_db_url_given :
    get_db_url (some "sqlite+aiosqlite:///app.db") none ≡ "sqlite+aiosqlite:///app.db"
unfolding get_db_url
get_db_url_given = refl

abbrev events : List CallEvent
events = calls 1 ∷ calls 2 ∷ calls 3 ∷ answered 1 ∷ []

concurrency_bounds_example :
    (length (serve_all events (new_slots 2)).running + (serve_all events (new_slots 2)).free ≡ 2)
    × (length (serve_all events (new_slots 2)).running ≤ 2)
    × ((ltb 0 (serve_all events (new_slots 2)).free
          && not (none_wait (serve_all events (new_slots 2)).waiting))
        ≡ false)
concurrency_bounds_example = concurrency_bounds 2 events
