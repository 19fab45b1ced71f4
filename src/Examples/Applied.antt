-- ===== src/Examples/Applied.antt =====
-- Runs of scripts/apply_versions.py.
use h4ckrth0n.Prelude.{◌≡◌, refl, String, Option, none, some, ◌==◌, if◌then◌else◌}
use h4ckrth0n.Json.{str, field, end}
use h4ckrth0n.Result.{Result, ok, err, library_error}
use h4ckrth0n.Text.{append, take, lstrip, is_space}
use h4ckrth0n.Text.Pattern.{after, strip_prefix}
use h4ckrth0n.Text.Lines.{concat}
use h4ckrth0n.Release.Semver.{leading}
use h4ckrth0n.Release.Bump.{Script, returns, dies, parse_pyproject_version, group_to}
use h4ckrth0n.Release.Bump.Targets.{
  Document, text, json, set_field, lock_value, after_newline, source_here,
}
use h4ckrth0n.Release.Bump.Main.{Files, write_text}
use h4ckrth0n.Release.Apply.{
  Run, run_apply, apply_versions, update_pyproject_version, sub_first, version_here, fallback_here,
  quoted_line, ends_quote, update_fallback, update_uv_lock, sub_editable, editable_here,
  set_package_version, set_lock_version, package_path, lock_path,
}

-- A reader of the project's version.
abbrev read : Script String → Result String
read (returns version) = ok version
read (dies message) = err (library_error message)

abbrev toml : String → Result String
toml content = read (parse_pyproject_version content)

abbrev tree : Option Document → Files
tree doc path =
    if path == "pyproject.toml"
    then some (text "[project]\nversion = \"0.1.9\"\n")
    else if path == "src/h4ckath0n/version.py"
    then some (text "__fallback_version__ = \"0.1.9\"\n")
    else if path == "uv.lock"
    then some (
        text
          "[[package]]\nname = \"h4ckath0n\"\nversion = \"0.1.9\"\nsource = { editable = \".\" }\n")
    else if path == package_path
    then doc
    else none

abbrev whole : Files
whole = tree (some (json (field "version" (str "0.1.9") end)))

abbrev whole_after : Files
whole_after = (run_apply toml "dev" "0.2.0" "0.2.0" whole).0

abbrev done : Run
done = (whole_after, ok tt)

lock_written :
    whole_after "uv.lock"
    ≡ some (
        text
          "[[package]]\nname = \"h4ckath0n\"\nversion = \"0.2.0\"\nsource = { editable = \".\" }\n")
unfolding run_apply apply_versions update_pyproject_version sub_first version_here fallback_here
    quoted_line ends_quote update_fallback set_package_version set_lock_version strip_prefix after
    leading lstrip is_space concat append write_text update_uv_lock sub_editable editable_here
    lock_value after_newline source_here group_to take
lock_written = refl

abbrev dev : String
dev = "dev"

-- A malformed package-lock.json: the run fails after package.json was written.
abbrev malformed : Files
malformed path = if path == lock_path then some (text "{") else whole path

malformed_stops :
    (run_apply toml "dev" "0.2.0" "0.2.0" malformed).1 ≡ err (library_error "JSONDecodeError")
unfolding run_apply apply_versions update_pyproject_version sub_first version_here fallback_here
    quoted_line ends_quote update_fallback set_package_version set_lock_version strip_prefix after
    leading lstrip is_space concat append write_text update_uv_lock sub_editable lock_value group_to
    source_here set_field
malformed_stops = refl

malformed_writes :
    (run_apply toml "dev" "0.2.0" "0.2.0" malformed).0 package_path
    ≡ some (json (field "version" (str "0.2.0") end))
unfolding run_apply apply_versions update_pyproject_version sub_first version_here fallback_here
    quoted_line ends_quote update_fallback set_package_version set_lock_version strip_prefix after
    leading lstrip is_space concat append write_text update_uv_lock sub_editable lock_value group_to
    source_here set_field
malformed_writes = refl

-- No package.json: the Python files are written before the run fails.
abbrev partial : Files
partial = tree none

abbrev partial_after : Files
partial_after = (run_apply toml "dev" "0.2.0" "0.2.0" partial).0

abbrev stopped : Run
stopped = (partial_after, err (library_error "FileNotFoundError"))

partial_stops : run_apply toml "dev" "0.2.0" "0.2.0" partial ≡ stopped
unfolding run_apply apply_versions update_pyproject_version sub_first version_here fallback_here
    quoted_line ends_quote update_fallback set_package_version set_lock_version strip_prefix after
    leading lstrip is_space concat append write_text update_uv_lock sub_editable lock_value group_to
    source_here
partial_stops = refl
