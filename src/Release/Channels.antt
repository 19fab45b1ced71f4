-- ===== src/Release/Channels.antt =====
-- scripts/compute_versions.py: the channel of a release and the versions to publish. `env` is
-- `os.environ.get`, `git_tag` what `git tag` prints or none if it fails, `git_head` what `git rev-parse
-- HEAD` prints, `now` the time in UTC, and a document what `tomllib` or `json` reads from its file.
pub mod Newer
use Prim.Native.Char.{Char, code}
use Prim.Native.String
use h4ckrth0n.Prelude.{
  ℕ, zero, suc, ◌+◌, ◌/◌, ◌%◌, String, Bool, true, false, not, Option, none, some, List, [], ◌∷◌,
  ◌==◌, if◌then◌else◌, is_text,
}
use h4ckrth0n.Result.{Result, ok, err, value_error, runtime_error, library_error}
use h4ckrth0n.Json.{Json, str, obj, Fields, lookup}
use h4ckrth0n.Text.{append, take, strip, any_char}
use h4ckrth0n.Text.Split.{split}
use h4ckrth0n.Text.Lines.{concat}
use h4ckrth0n.Text.Decimal.{decimal, digit}
use h4ckrth0n.Release.Semver.{Version, semver_tag, parse_version, format_version, latest_stable_tag}

infixl 5 ◌>>=◌
abbrev pub ◌>>=◌ {ℓ κ} : {A : Type ℓ} {B : Type κ} → Result A → (A → Result B) → Result B
ok a >>= f = f a
err e >>= f = err e

abbrev pub Environ : Type 0
Environ = String → Option String

-- A text that is set and not empty.
abbrev pub truthy : Option String → Bool
truthy none = false
truthy (some s) = not (s == "")

abbrev pub get_or : String → Option String → String
get_or default none = default
get_or default (some s) = s

unfoldable pub determine_channel : Environ → Option String → String
determine_channel env channel =
    if truthy channel
    then get_or "" channel
    else if truthy (env "RELEASE_CHANNEL")
    then get_or "" (env "RELEASE_CHANNEL")
    else if is_text (env "GITHUB_REF_TYPE") "tag"
    then "stable"
    else if is_text (env "GITHUB_EVENT_NAME") "schedule"
    then "nightly"
    else "dev"

abbrev text_of : Option Json → Result String
text_of (some (str s)) = ok s
text_of _ = err (library_error "KeyError")

unfoldable pub read_package_version : Json → Result String
read_package_version (obj fields) = text_of (lookup "version" fields)
read_package_version _ = err (library_error "TypeError")

abbrev table_of : Option Json → Result String
table_of none = err (library_error "KeyError")
table_of (some project) = read_package_version project

unfoldable pub read_pyproject_version : Json → Result String
unfolding read_package_version
read_pyproject_version (obj fields) = table_of (lookup "project" fields)
read_pyproject_version _ = err (library_error "TypeError")

unfoldable pub same_version : String → String → Result Version
same_version pyproject_version package_version =
    if pyproject_version == package_version
    then parse_version pyproject_version
    else err (
        value_error (
          append "pyproject.toml and package.json versions do not match: "
            (append pyproject_version (append " vs " package_version))))

unfoldable pub base_version_from_files : Json → Json → Result Version
unfolding same_version
base_version_from_files pyproject package_json = do
  pyproject_version ← read_pyproject_version pyproject
  package_version ← read_package_version package_json
  same_version pyproject_version package_version

pub record DateTime : Type 0 where
  pub year : ℕ
  pub month : ℕ
  pub day : ℕ
  pub hour : ℕ
  pub minute : ℕ
  pub second : ℕ

-- Two digits, and the four of the year from 1000 on.
abbrev pub two : ℕ → String
two n = String.◌∷◌ (digit (n / 10)) (String.◌∷◌ (digit (n % 10)) "")

pub record Versions : Type 0 where
  pub npm_version : String
  pub pypi_version : String
  pub dist_tag : String
  pub channel : String
  pub base_version : String

unfoldable pub last_of : List String → String
last_of [] = ""
last_of (s ∷ []) = s
last_of (s ∷ t ∷ l) = last_of (t ∷ l)

abbrev is_slash : Char → Bool
is_slash c = String.◌∷◌ c "" == "/"

-- The part of the name after its last slash.
unfoldable pub tag_ref : Environ → String
tag_ref env =
    let name =
      if truthy (env "GITHUB_REF_NAME")
      then get_or "" (env "GITHUB_REF_NAME")
      else get_or "" (env "GITHUB_REF") in
    if any_char is_slash name then last_of (split "/" name) else name

unfoldable pub stable_release : String → String → Option Version → Result Versions
stable_release channel ref none =
    err (value_error (append "Stable release requires a semver tag, got: " ref))
stable_release channel ref (some v) = ok (record {
  npm_version = format_version v;
  pypi_version = format_version v;
  dist_tag = "latest";
  channel = channel;
  base_version = format_version v;
})

unfoldable pub stable_versions : String → String → Result Versions
unfolding stable_release
stable_versions channel ref = stable_release channel ref (semver_tag ref)

unfoldable pub next_patch : Version → Version
next_patch v = record v { patch = v.patch + 1 }

unfoldable pub base_version : Option (String × Version) → Json → Json → Result Version
unfolding next_patch
base_version (some (tag, v)) pyproject package_json = ok (next_patch v)
base_version none pyproject package_json = do
  v ← base_version_from_files pyproject package_json
  ok (next_patch v)

unfoldable pub nightly_versions : DateTime → String → String → Versions
nightly_versions now channel base = record {
  npm_version =
      concat (base ∷ "-dev." ∷ decimal now.year ∷ "-" ∷ two now.month ∷ "-" ∷ two now.day ∷ []);
  pypi_version = concat (base ∷ ".dev" ∷ decimal now.year ∷ two now.month ∷ two now.day ∷ []);
  dist_tag = "nightly";
  channel = channel;
  base_version = base;
}

unfoldable pub dev_versions : DateTime → String → String → String → Versions
dev_versions now channel base sha = record {
  npm_version = concat (
      base
      ∷ "-dev."
      ∷ decimal now.year
      ∷ "-"
      ∷ two now.month
      ∷ "-"
      ∷ two now.day
      ∷ "."
      ∷ two now.hour
      ∷ "-"
      ∷ two now.minute
      ∷ "-"
      ∷ two now.second
      ∷ "."
      ∷ take 7 sha
      ∷ []);
  pypi_version = concat (
      base
      ∷ ".dev"
      ∷ decimal now.year
      ∷ two now.month
      ∷ two now.day
      ∷ two now.hour
      ∷ two now.minute
      ∷ two now.second
      ∷ []);
  dist_tag = "dev";
  channel = channel;
  base_version = base;
}

abbrev map_ok {ℓ κ} : {A : Type ℓ} {B : Type κ} → (A → B) → Result A → Result B
map_ok f (ok a) = ok (f a)
map_ok f (err e) = err e

unfoldable pub commit_sha : Environ → Result String → Result String
commit_sha env git_head =
    if truthy (env "GITHUB_SHA") then ok (get_or "" (env "GITHUB_SHA")) else map_ok strip git_head

abbrev tags_of : Option (List String) → Result (List String)
tags_of none = err (runtime_error "Failed to read git tags")
tags_of (some raw_tags) = ok raw_tags

-- Any channel but "stable" and "nightly" is a dev release.
unfoldable pub prerelease_versions :
    Environ → DateTime → Result String → String → Version → Result Versions
prerelease_versions env now git_head channel base =
    if channel == "nightly"
    then ok (nightly_versions now channel (format_version base))
    else map_ok (dev_versions now channel (format_version base)) (commit_sha env git_head)

unfoldable pub channel_versions :
    Environ
    → DateTime
    → Option (String × Version)
    → Result String
    → Json
    → Json
    → String
    → Result Versions
channel_versions env now latest_tag git_head pyproject package_json channel =
    if channel == "stable"
    then stable_versions channel (tag_ref env)
    else base_version latest_tag pyproject package_json
      >>= prerelease_versions env now git_head channel

unfoldable pub compute_versions :
    Environ
    → DateTime
    → Option (List String)
    → Result String
    → Json
    → Json
    → String
    → Result Versions
compute_versions env now git_tag git_head pyproject package_json channel = do
  raw_tags ← tags_of git_tag
  channel_versions env now (latest_stable_tag raw_tags) git_head pyproject package_json channel

-- The lines that `write_outputs` appends to the file that GITHUB_OUTPUT names.
unfoldable pub output_lines : Versions → List String
output_lines v =
    concat ("npm_version=" ∷ v.npm_version ∷ "\n" ∷ [])
    ∷ concat ("pypi_version=" ∷ v.pypi_version ∷ "\n" ∷ [])
    ∷ concat ("dist_tag=" ∷ v.dist_tag ∷ "\n" ∷ [])
    ∷ concat ("channel=" ∷ v.channel ∷ "\n" ∷ [])
    ∷ concat ("base_version=" ∷ v.base_version ∷ "\n" ∷ [])
    ∷ []

unfoldable pub written_outputs : Environ → Versions → List String
unfolding output_lines
written_outputs env values = if truthy (env "GITHUB_OUTPUT") then output_lines values else []
