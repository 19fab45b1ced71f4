-- ===== src/Release/Bump.antt =====
-- scripts/bump_version.py: the next version and the version in a pyproject.toml. `die` prints its
-- message and exits with 2. Targets has the other files, Main the run over all of them.
pub mod Bumped
pub mod Targets
pub mod Main
pub mod Runs
pub mod Keys
pub mod Manifests
use Prim.Native.Char.{Char, code}
use Prim.Native.String
use h4ckrth0n.Prelude.{
  ℕ, ◌+◌, ◌-◌, String, Bool, true, false, not, ◌&&◌, ◌||◌, Option, none, some, List, [], ◌∷◌, ◌++◌,
  ◌==◌, eqb, if◌then◌else◌, is_none, is_text,
}
use h4ckrth0n.Text.{append, take, length, strip, lstrip, all_chars, is_space}
use h4ckrth0n.Text.Lines.{lines_kept, splitlines, concat, join_line}
use h4ckrth0n.Text.Pattern.{strip_prefix, after}
use h4ckrth0n.Release.Semver.{Version, semver, format_version, leading, ◌>>=◌}

pub data Script {ℓ} (A : Type ℓ) : Type ℓ where
  returns : A → Script A
  dies : String → Script A

abbrev and_then {ℓ κ} : {A : Type ℓ} {B : Type κ} → Script A → (A → Script B) → Script B
and_then (returns a) f = f a
and_then (dies message) f = dies message

unfoldable pub bumped : Version → String → Script Version
bumped v bump =
    if bump == "patch"
    then returns (record v { patch = v.patch + 1 })
    else if bump == "minor"
    then returns (record v { minor = v.minor + 1; patch = 0 })
    else if bump == "major"
    then returns (record { major = v.major + 1; minor = 0; patch = 0 })
    else dies (append "Unknown bump: " bump)

abbrev map_script {ℓ κ} : {A : Type ℓ} {B : Type κ} → (A → B) → Script A → Script B
map_script f (returns a) = returns (f a)
map_script f (dies message) = dies message

abbrev bump_found : Option Version → String → String → Script String
bump_found none old bump = dies (append "Current version is not X.Y.Z semver: " old)
bump_found (some v) old bump = map_script format_version (bumped v bump)

unfoldable pub bump_semver : String → String → Script String
unfolding bumped
bump_semver old bump = bump_found (semver old) old bump

is_not : Char → Char → Bool
is_not x c = not (eqb (code c) (code x))

-- A quoted or bracketed group of one character or more, up to the closing character: the group and
-- what follows the closing character.
abbrev close : String → String → Option (String × String)
close group String.[] = none
close group (String.◌∷◌ c rest) = if group == "" then none else some (group, rest)

unfoldable pub group_to : Char → String → Option (String × String)
unfolding is_not
group_to x s = close (leading (is_not x) s) (after (is_not x) s)

unfoldable pub blank : String → Bool
blank s = all_chars is_space s

abbrev if_blank : String × String → Option String
if_blank (group, rest) = if blank rest then some group else none

-- `^\s*\[([^\]]+)\]\s*$`
unfoldable pub header : String → Option String
header line = do s ← strip_prefix "[" (lstrip line); found ← group_to "]" s; if_blank found

-- What follows `^\s*version\s*=\s*"`.
unfoldable pub version_value : String → Option String
version_value line = do
  s ← strip_prefix "version" (lstrip line)
  t ← strip_prefix "=" (lstrip s)
  strip_prefix "\"" (lstrip t)

-- `^\s*version\s*=\s*"([^"]+)"\s*$`
unfoldable pub version_line : String → Option String
version_line line = do s ← version_value line; found ← group_to "\"" s; if_blank found

-- The loop of `parse_pyproject_version`.
unfoldable pub find_version : Bool → List String → Option String
find_version in_project [] = none
find_version in_project (line ∷ lines) = elim (header line) [
  | some name ↦ find_version (strip name == "project") lines
  | none ↦ elim (if in_project then version_line line else none) [
    | none ↦ find_version in_project lines
    | some version ↦ some version
  ]
]

abbrev found_or_dies : Option String → Script String
found_or_dies none = dies "Could not find [project].version in pyproject.toml"
found_or_dies (some version) = returns version

unfoldable pub parse_pyproject_version : String → Script String
parse_pyproject_version text = found_or_dies (find_version false (splitlines text))

-- One newline at the end is left out.
unfoldable pub drop_newline : String → String
drop_newline String.[] = ""
drop_newline (String.◌∷◌ c s) =
    let rest = drop_newline s in if eqb (code c) 10 && s == "" then "" else String.◌∷◌ c rest

-- The new line: what stands before the value, the new value, the quote and what follows it.
abbrev with_value : String → String → String → String → String × String → Option String
with_value line old new value (group, rest) =
    if group == old
    then some (
        concat
          (take (length line - length value) line ∷ new ∷ "\"" ∷ drop_newline rest ∷ "\n" ∷ []))
    else none

-- `^(\s*version\s*=\s*")([^"]+)(".*)\n?$` with the old version: a line has a newline only at its end.
unfoldable pub replaced_line : String → String → String → Option String
replaced_line old new line = do
  value ← version_value line
  found ← group_to "\"" value
  with_value line old new value found

abbrev cons_line : String → List String × Bool → List String × Bool
cons_line line (lines, changed) = (line ∷ lines, changed)

-- The loop of `replace_project_version_in_pyproject`: the new lines, and whether one was changed.
unfoldable pub replace_lines : String → String → Bool → List String → List String × Bool
replace_lines old new in_project [] = ([], false)
replace_lines old new in_project (line ∷ lines) = elim (header (strip line)) [
  | some name ↦ cons_line line (replace_lines old new (strip name == "project") lines)
  | none ↦ elim (if in_project then replaced_line old new line else none) [
    | none ↦ cons_line line (replace_lines old new in_project lines)
    | some line' ↦ (line' ∷ (replace_lines old new in_project lines).0, true)
  ]
]

unfoldable pub replace_project_version : String → String → String → Option String
unfolding replace_lines replaced_line drop_newline
replace_project_version before old new =
    let (out, changed) = replace_lines old new false (lines_kept before) in
    if changed then some (concat out) else none
