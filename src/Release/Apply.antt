-- ===== src/Release/Apply.antt =====
-- scripts/apply_versions.py: the versions of a release are written into its files, or checked on the
-- stable channel. The files are those of Bump; `toml` is the project's version as `tomllib` reads it
-- from a text. Paths start at the root. A version has no backslash, which `re` would read as an escape.
pub mod Writes
pub mod Places
pub mod Written
use Prim.Native.Char.{Char, code}
use Prim.Native.String
use h4ckrth0n.Prelude.{
  ◌-◌, String, Bool, true, false, not, ◌&&◌, Option, none, some, List, [], ◌∷◌, ◌==◌, eqb,
  if◌then◌else◌, is_none,
}
use h4ckrth0n.Json.{Json, str, obj, Fields, lookup}
use h4ckrth0n.Result.{Result, ok, err, Error, value_error, library_error}
use h4ckrth0n.Text.{append, take, length, lstrip}
use h4ckrth0n.Text.Lines.{concat}
use h4ckrth0n.Text.Pattern.{strip_prefix, after}
use h4ckrth0n.Release.Semver.{leading, ◌>>=◌}
use h4ckrth0n.Release.Bump.{group_to}
use h4ckrth0n.Release.Bump.Targets.{
  Document, text, json, set_field, is_str, after_newline, lock_value, source_here,
}
use h4ckrth0n.Release.Bump.Main.{Files, write_text}

abbrev is_newline : Char → Bool
is_newline c = eqb (code c) 10

unfoldable pub ends_quote : String → Bool
ends_quote String.[] = false
ends_quote (String.◌∷◌ c String.[]) = eqb (code c) 34
ends_quote (String.◌∷◌ c (String.◌∷◌ d s)) = ends_quote (String.◌∷◌ d s)

-- `.*"$` in multiline mode: what follows the line, if the line ends with a quote.
unfoldable pub quoted_line : String → Option String
unfolding ends_quote
quoted_line s =
    if ends_quote (leading (λ c. not (is_newline c)) s)
    then some (after (λ c. not (is_newline c)) s)
    else none

-- `version = ".*"$`
unfoldable pub version_here : String → Option String
version_here s = do a ← strip_prefix "version = \"" s; quoted_line a

-- `__fallback_version__\s*=\s*".*"$`
unfoldable pub fallback_here : String → Option String
fallback_here s = do
  a ← strip_prefix "__fallback_version__" s
  b ← strip_prefix "=" (lstrip a)
  c ← strip_prefix "\"" (lstrip b)
  quoted_line c

abbrev pub cons_some : Char → Option String → Option String
cons_some c none = none
cons_some c (some s) = some (String.◌∷◌ c s)

-- `re.subn` of a pattern that starts with `^`, in multiline mode and once; none where it counts 0.
unfoldable pub sub_first : (String → Option String) → String → Bool → String → Option String
sub_first here new at_start String.[] = none
sub_first here new at_start (String.◌∷◌ c s) =
    elim (if at_start then here (String.◌∷◌ c s) else none) [
      | none ↦ cons_some c (sub_first here new (is_newline c) s)
      | some rest ↦ some (append new rest)
    ]

-- The pattern of uv.lock at a place: the text from the old version on, and from its closing quote on.
abbrev editable_at : String → Option (String × String) → Option (String × String)
editable_at value none = none
editable_at value (some (group, rest)) = do
  a ← after_newline rest
  b ← source_here a
  some (value, append "\"" rest)

unfoldable pub editable_here : String → Option (String × String)
editable_here s = do value ← lock_value s; editable_at value (group_to "\"" value)

unfoldable pub sub_editable : String → String → Option String
unfolding editable_here
sub_editable version String.[] = none
sub_editable version (String.◌∷◌ c s) = elim (editable_here (String.◌∷◌ c s)) [
  | none ↦ cons_some c (sub_editable version s)
  | some (value, rest) ↦ some (
      concat (take (length (String.◌∷◌ c s) - length value) (String.◌∷◌ c s) ∷ version ∷ rest ∷ []))
]

-- What a step leaves: the files, and whether it raised.
abbrev pub Run : Type 0
Run = Files × Result (Unit {0})

abbrev missing : Error
missing = library_error "FileNotFoundError"

-- What is raised on a file that should hold a JSON object and does not: its text is malformed, or is
-- another value.
abbrev no_object : Error
no_object = library_error "JSONDecodeError"

abbrev pub assigned : String → String
assigned version = concat ("version = \"" ∷ version ∷ "\"" ∷ [])

abbrev pub write_pyproject : Files → Option String → Run
write_pyproject files none = (files, err (value_error "Failed to update version in pyproject.toml"))
write_pyproject files (some updated) = (write_text "pyproject.toml" (text updated) files, ok tt)

unfoldable pub update_pyproject_version : String → Files → Option Document → Run
update_pyproject_version version files (some (text content)) =
    write_pyproject files (sub_first version_here (assigned version) true content)
update_pyproject_version version files _ = (files, err missing)

abbrev pub version_py : String
version_py = "src/h4ckath0n/version.py"

abbrev pub init_py : String
init_py = "src/h4ckath0n/__init__.py"

abbrev pub fallback_in : String → Option Document → Option String
fallback_in version (some (text content)) =
    sub_first fallback_here (concat ("__fallback_version__ = \"" ∷ version ∷ "\"" ∷ [])) true
      content
fallback_in version _ = none

unfoldable pub existing : Files → List String → List String
existing files [] = []
existing files (path ∷ paths) =
    let rest = existing files paths in if is_none (files path) then rest else path ∷ rest

unfoldable pub commas : List String → String
commas [] = ""
commas (path ∷ []) = path
commas (path ∷ next ∷ paths) = concat (path ∷ ", " ∷ commas (next ∷ paths) ∷ [])

abbrev pub fallback_error : Files → Error
unfolding existing commas
fallback_error files = value_error (
    append "Failed to update __fallback_version__ in any candidate file: "
      (commas (existing files (version_py ∷ init_py ∷ []))))

abbrev pub fallback_or : String → Files → Run → Option String → Run
fallback_or candidate files rest none = rest
fallback_or candidate files rest (some updated) = (write_text candidate (text updated) files, ok tt)

-- The loop over the candidates: a file that is missing or has no such line is passed over.
unfoldable pub update_fallback : String → Files → List String → Run
update_fallback version files [] = (files, err (fallback_error files))
update_fallback version files (candidate ∷ candidates) =
    fallback_or candidate files (update_fallback version files candidates)
      (fallback_in version (files candidate))

abbrev pub write_if : String → Files → Option String → Files
write_if path files none = files
write_if path files (some updated) = write_text path (text updated) files

unfoldable pub update_uv_lock : String → Files → Option Document → Files
update_uv_lock version files (some (text content)) =
    write_if "uv.lock" files (sub_editable version content)
update_uv_lock version files _ = files

abbrev pub package_path : String
package_path = "packages/create-h4ckath0n/package.json"

abbrev pub lock_path : String
lock_path = "packages/create-h4ckath0n/package-lock.json"

unfoldable pub set_package_version : String → Files → Option Document → Run
set_package_version version files (some (json fields)) =
    (write_text package_path (json (set_field "version" (str version) fields)) files, ok tt)
set_package_version version files (some (text content)) = (files, err no_object)
set_package_version version files none = (files, err missing)

abbrev pub root_package : String → Fields → Fields → Option Json → Fields
root_package version fields packages (some (obj root)) =
    set_field "packages"
      (obj (set_field "" (obj (set_field "version" (str version) root)) packages)) fields
root_package version fields packages _ = fields

abbrev pub lock_packages : String → Fields → Option Json → Fields
lock_packages version fields (some (obj packages)) =
    root_package version fields packages (lookup "" packages)
lock_packages version fields _ = fields

unfoldable pub set_lock_version : String → Files → Option Document → Run
set_lock_version version files none = (files, ok tt)
set_lock_version version files (some (text content)) = (files, err no_object)
set_lock_version version files (some (json fields)) =
    let fields' = set_field "version" (str version) fields in
    (
      write_text lock_path (json (lock_packages version fields' (lookup "packages" fields'))) files,
      ok tt,
    )

-- The next step, if the one before did not raise.
abbrev pub and_then : Run → (Files → Run) → Run
and_then (files, ok u) next = next files
and_then (files, err e) next = (files, err e)

abbrev pub update_npm : String → Files → Run
update_npm npm files =
    and_then (set_package_version npm files (files package_path))
      λ f. set_lock_version npm f (f lock_path)

abbrev pub after_fallback : String → String → Files → Run
after_fallback pypi npm files = update_npm npm (update_uv_lock pypi files (files "uv.lock"))

abbrev pub after_pyproject : String → String → Files → Run
after_pyproject pypi npm files =
    and_then (update_fallback pypi files (version_py ∷ init_py ∷ [])) (after_fallback pypi npm)

-- `main` off the stable channel
unfoldable pub apply_versions : String → String → Files → Run
apply_versions pypi npm files =
    and_then (update_pyproject_version pypi files (files "pyproject.toml"))
      (after_pyproject pypi npm)

abbrev pub version_of : Option Json → Result Json
version_of none = err (library_error "KeyError")
version_of (some version) = ok version

abbrev pub package_version : Option Document → Result Json
package_version (some (json fields)) = version_of (lookup "version" fields)
package_version (some (text content)) = err no_object
package_version none = err missing

-- The message is without the three versions that it shows.
abbrev pub both_are : String → Result String → Result Json → Result (Unit {0})
both_are version (err e) q = err e
both_are version (ok p) (err e) = err e
both_are version (ok p) (ok q) =
    if p == version && is_str (some q) version
    then ok tt
    else err (value_error "Stable release requires versions to match tag")

module _ (toml : String → Result String) where
  abbrev pub pyproject_version : Option Document → Result String
  pyproject_version (some (text content)) = toml content
  pyproject_version _ = err missing

  unfoldable pub validate_versions : Files → String → Result (Unit {0})
  validate_versions files version =
      both_are version (pyproject_version (files "pyproject.toml"))
        (package_version (files package_path))

  -- `main`
  unfoldable pub run_apply : String → String → String → Files → Run
  unfolding validate_versions apply_versions
  run_apply channel pypi npm files =
      if channel == "stable"
      then (files, validate_versions files pypi)
      else apply_versions pypi npm files
