-- ===== src/Examples/Releases.antt =====
-- Runs of the release scripts and of the redaction.
use h4ckrth0n.Prelude.{
  ◌≡◌, refl, String, true, false, none, some, List, [], ◌∷◌, ◌==◌, if◌then◌else◌, is_none, contains,
}
use h4ckrth0n.Result.{ok, err, value_error}
use h4ckrth0n.Json.{null, str, obj, Fields, end, field, lookup}
use h4ckrth0n.Release.Bump.Keys.{VersionKey}
use h4ckrth0n.Release.Bump.Manifests.{
  package_json, openapi_json, Asked, InfoVersion, applied_run_bumps,
}
use h4ckrth0n.Text.{append, nth, take, lstrip, rstrip, strip, is_space, all_chars}
use h4ckrth0n.Text.Pattern.{after, strip_prefix, sub, sub_from, match_length, match_rest, run}
use h4ckrth0n.Text.Lines.{concat, splitlines, lines_kept, is_break, starts_newline, chomp}
use h4ckrth0n.Text.Decimal.{
  is_digit, digit_value, digit_from, int, int_from, decimal, digits, digit,
}
use h4ckrth0n.Redaction.{redact_value, make_redactor, apply_all}
use h4ckrth0n.Redaction.Secrets.{redaction_removes, is_clean}
use h4ckrth0n.Release.Semver.{
  Version, semver, semver_tag, parse_version, format_version, older, latest_stable_tag, stable_tags,
  latest, number, dot, leading, last_part, is_end,
}
use h4ckrth0n.Release.Semver.Reading.{parse-format_version}
use h4ckrth0n.Release.Channels.{
  Environ, DateTime, Versions, compute_versions, channel_versions, base_version, next_patch,
  prerelease_versions, nightly_versions,
}
use h4ckrth0n.Release.Channels.Newer.{prerelease_newer}
use h4ckrth0n.Release.Bump.{
  returns, bumped, bump_semver, parse_pyproject_version, find_version, header, version_line,
  version_value, group_to, blank, replace_project_version, replace_lines, replaced_line,
  drop_newline,
}
use h4ckrth0n.Release.Bump.Targets.{
  text, json, update_template_dependency_floor, replace_fallback_version, sub_fallback,
  fallback_match, fallback_value, replace_uv_lock_version, lock_here, lock_value, after_newline,
  source_follows, has_source, source_here, has_newline,
}
use h4ckrth0n.Release.Bump.Main.{Args, Files, new_version, run_bump, run_targets, find_changes}
use h4ckrth0n.Release.Bump.Bumped.{bump_semver-Newer}

redaction_removes_example :
    (is_clean (redact_value "sk-abcdefghijklmnopqrstu ok") ≡ true)
    × (redact_value (redact_value "sk-abcdefghijklmnopqrstu ok")
        ≡ redact_value "sk-abcdefghijklmnopqrstu ok")
    × (make_redactor [] "sk-abcdefghijklmnopqrstu ok"
        ≡ apply_all [] (redact_value "sk-abcdefghijklmnopqrstu ok"))
redaction_removes_example = redaction_removes [] "sk-abcdefghijklmnopqrstu ok"

abbrev release : Version
release = record { major = 1; minor = 20; patch = 3 }

parse-format_version_example :
    (parse_version (format_version release) ≡ ok release)
    × (parse_version (append "v" (format_version release)) ≡ ok release)
    × (semver_tag (append "v" (format_version release)) ≡ some release)
    × (semver (format_version release) ≡ some release)
parse-format_version_example = parse-format_version release

abbrev env : Environ
env name = none

abbrev now : DateTime
now = record { year = 2026; month = 1; day = 5; hour = 9; minute = 30; second = 7 }

abbrev tags : List String
tags = "v0.1.9" ∷ "nightly" ∷ "v0.1.10" ∷ []

abbrev nightly : Versions
nightly = record {
  npm_version = "0.1.11-dev.2026-01-05";
  pypi_version = "0.1.11.dev20260105";
  dist_tag = "nightly";
  channel = "nightly";
  base_version = "0.1.11";
}

found : latest_stable_tag tags ≡ some ("v0.1.10", record { major = 0; minor = 1; patch = 10 })
unfolding latest_stable_tag stable_tags latest older semver_tag semver number dot leading after
    is_digit digit_value digit_from last_part is_end int int_from
found = refl

listed : contains "v0.1.9" tags ≡ true
unfolding contains
listed = refl

old_tag : semver_tag "v0.1.9" ≡ some (record { major = 0; minor = 1; patch = 9 })
unfolding semver_tag semver number dot leading after is_digit digit_value digit_from last_part
    is_end int int_from
old_tag = refl

computed :
    compute_versions env now (some tags) (err (value_error "git")) null null "nightly" ≡ ok nightly
unfolding compute_versions channel_versions base_version next_patch prerelease_versions
    nightly_versions concat append decimal digits digit nth format_version
computed = rw found

prerelease_newer_example :
    (b : Version) × (semver "0.1.11" ≡ some b)
    × (older (record { major = 0; minor = 1; patch = 9 }) b ≡ true)
prerelease_newer_example =
    prerelease_newer env now tags (err (value_error "git")) null null "nightly" nightly refl
      computed "v0.1.9" (record { major = 0; minor = 1; patch = 9 }) listed old_tag

next_minor : bump_semver "0.1.9" "minor" ≡ returns "0.2.0"
unfolding bump_semver bumped semver number dot leading after is_digit digit_value digit_from
    last_part is_end int int_from format_version append decimal digits digit nth
next_minor = refl

bump_semver-Newer_example :
    (v : Version) × (w : Version) × (semver "0.1.9" ≡ some v)
    × (semver "0.2.0" ≡ some w)
    × (bumped v "minor" ≡ returns w)
    × (older v w ≡ true)
bump_semver-Newer_example = bump_semver-Newer "0.1.9" "minor" "0.2.0" next_minor

abbrev pyproject : String
pyproject = "[project]\nname = \"x\"\nversion = \"0.1.9\"\n"

abbrev old_fields : Fields
old_fields = field "name" (str "x") (field "version" (str "0.1.9") end)

abbrev api : Fields
api = field "info" (obj old_fields) end

has_old : lookup "version" old_fields ≡ some (str "0.1.9")
unfolding lookup
has_old = refl

has_info : lookup "info" api ≡ some (obj old_fields)
unfolding lookup
has_info = refl

abbrev files : Files
files path =
    if path == "pyproject.toml"
    then some (text pyproject)
    else if path == package_json
    then some (json old_fields)
    else if path == openapi_json
    then some (json api)
    else none

abbrev args : Args
args = record { to = some "0.2.0"; bump = none; apply = true }

read_version : parse_pyproject_version pyproject ≡ returns "0.1.9"
unfolding parse_pyproject_version find_version splitlines lines_kept is_break starts_newline chomp
    header version_line version_value group_to blank strip_prefix leading after lstrip rstrip strip
    is_space all_chars
read_version = refl

replaced :
    replace_project_version pyproject "0.1.9" "0.2.0"
    ≡ some "[project]\nname = \"x\"\nversion = \"0.2.0\"\n"
unfolding replace_project_version replace_lines replaced_line drop_newline lines_kept is_break
    starts_newline header version_value group_to blank strip_prefix leading after lstrip rstrip
    strip is_space all_chars concat append take
replaced = refl

valid : semver "0.2.0" ≡ some (record { major = 0; minor = 2; patch = 0 })
unfolding semver number dot leading after is_digit digit_value digit_from last_part is_end int
    int_from
valid = refl

applied : (run_bump args files).1 ≡ returns "Applied version bump: 0.1.9 -> 0.2.0"
unfolding run_bump run_targets new_version find_changes concat append
applied = rw (read_version, valid, replaced)

applied_run_bumps_example :
    (new : String) × Asked args "0.1.9" new
    × (is_none (semver new) ≡ false)
    × VersionKey new (files package_json) ((run_bump args files).0 package_json)
    × InfoVersion new (files openapi_json) ((run_bump args files).0 openapi_json)
applied_run_bumps_example =
    applied_run_bumps args files "Applied version bump: 0.1.9 -> 0.2.0" "0.1.9" old_fields api
      old_fields refl applied read_version refl has_old refl has_info has_old

-- The other rewritings, at small inputs.
fallback_runs :
    replace_fallback_version "0.1.9" "0.2.0" "x = 1\n__fallback_version__ = \"0.1.9\"\n"
    ≡ some "x = 1\n__fallback_version__ = \"0.2.0\"\n"
unfolding replace_fallback_version sub_fallback fallback_match fallback_value strip_prefix lstrip
    is_space take append concat
fallback_runs = refl

lock_runs :
    replace_uv_lock_version "0.1.9" "0.2.0"
      "[[package]]\nname = \"h4ckath0n\"\nversion = \"0.1.9\"\nsource = { editable = \".\" }\n"
    ≡ some "[[package]]\nname = \"h4ckath0n\"\nversion = \"0.2.0\"\nsource = { editable = \".\" }\n"
unfolding replace_uv_lock_version lock_here lock_value after_newline leading after strip_prefix
    lstrip is_space source_follows has_source source_here has_newline take append concat
lock_runs = refl

floor_runs :
    update_template_dependency_floor "0.1.9" "0.2.0" "[\"h4ckath0n>=0.1.9\", \"x\"]"
    ≡ some "[\"h4ckath0n>=0.2.0\", \"x\"]"
unfolding update_template_dependency_floor sub sub_from match_length match_rest run strip_prefix
    append concat
floor_runs = refl
