-- ===== src/Lib.antt =====
-- h4ckath0n: the authentication core of the library under src/h4ckath0n, its migrations and
-- start, its redaction, its command line and the release scripts, as definitions that run, with
-- what makes them correct.
--
-- The program is a FastAPI library. A client signs in with a passkey or with a password, binds
-- the public key of its device, and from then on signs a short token with that key for every
-- request. The routers open one database session for each request, call a service, and turn what
-- it raises into a status. The services read and write the tables of
-- src/h4ckath0n/auth/models.py.
--
-- How the parts correspond:
-- - Models, Db, Config: the rows of src/h4ckath0n/auth/models.py, a database of five tables with
--   their primary keys and unique columns, and the settings of src/h4ckath0n/config.py. A time is
--   a number of microseconds in UTC, and a column of serialised JSON holds the value.
-- - Db.Session: the SQLAlchemy session as a state, the rows that it sees and those that are
--   committed; flush, commit and rollback, and actions that return or raise. Laws, Keeps and
--   Atomic are the rules for actions that return, keep an invariant, or raise before they commit.
-- - Passkeys: src/h4ckath0n/auth/passkeys/service.py (Flows, Ceremonies, Management), webauthn.py
--   (WebAuthn), router.py and schemas.py (Router). Service has the histories of calls, one
--   request after the other. Interleaved has the statements of concurrent revocations, with the
--   lock of the user's row: what they leave is what `revoke_passkey` of Management leaves that
--   runs alone. It takes the row of the user to be there.
-- - Ids, Text.Base32: the identifiers of src/h4ckath0n/auth/passkeys/ids.py over a random stream;
--   Ids.Reader has the readers of that stream in all processes and threads, with the fork hook.
--   Text and Json are the texts and values of Python that the program uses; Text.Base64 is the
--   URL-safe base64 of webauthn.py.
-- - Auth.Jwt: src/h4ckath0n/auth/jwt.py and src/h4ckath0n/realtime/auth.py. Auth.Dependencies:
--   src/h4ckath0n/auth/dependencies.py. Auth.Passwords: src/h4ckath0n/auth/service.py and
--   passwords.py. Auth.Router: src/h4ckath0n/auth/router.py and schemas.py.
-- - Cli: the commands of src/h4ckath0n/cli.py on users (Users), on devices and passkeys (Keys)
--   and on the database (Migrate), and the dispatch (Main); Cli.Scopes has its lists of scopes.
--   The order in which a Python set is read is an argument.
-- - Migrations: src/h4ckath0n/db/migrations/runtime.py over an Alembic that is an argument. App:
--   the start and the routers of src/h4ckath0n/app.py, which calls Migrations. Db.Engine:
--   src/h4ckath0n/db/engine.py.
-- - Redaction: src/h4ckath0n/obs/redaction.py and wrappers.py, on the patterns of Text.Pattern.
--   Llm: src/h4ckath0n/llm/client.py and types.py.
-- - Release: scripts/compute_versions.py (Semver, Channels), scripts/bump_version.py (Semver;
--   Bump with the rewriting of its files in Targets and the run in Main) and
--   scripts/apply_versions.py (Apply). A JSON file is its value.
-- - Http, Endpoint: how a handler ends, and a handler on the session of its request.
-- - Examples: runs at concrete inputs.
--
-- What comes from outside is an argument: the clock, the random streams, SHAKE128, the WebAuthn
-- library, PyJWT with the reading of public keys, Argon2 and SHA-256, Alembic and the URLs of
-- SQLAlchemy, the OpenAI SDK, the environment, and what git prints. Recursion is structural, on
-- rows, characters, bytes or calls. The one fuel is that of the digits of a number, its value and
-- one, which is more than it has digits; Text.Decimal.RoundTrip reads them back.
--
-- Not modelled: interleaved requests other than revocations; Python warnings; the rendering of
-- responses and the validation of bodies beyond the length of a passkey's name; the definition of
-- the argument parser, the formats of the output and what Alembic prints, and its configuration
-- object, which refuses a URL with a bare percent sign; env.py and the versions of the
-- migrations; the set-up of tracing; cancelled LLM calls; the diff that bump_version.py prints;
-- check_doc_routes.py, the template application and the example.
pub mod Prelude
pub mod Text
pub mod Json
pub mod Models
pub mod Result
pub mod Ids
pub mod Config
pub mod Db
pub mod Http
pub mod Endpoint
pub mod Passkeys
pub mod Auth
pub mod Cli
pub mod Redaction
pub mod Release
pub mod Migrations
pub mod App
pub mod Llm
pub mod Examples
