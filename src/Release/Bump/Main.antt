-- ===== src/Release/Bump/Main.antt =====
-- scripts/bump_version.py: the run over the files. The files are a function from path to document,
-- with none where there is no file.
use h4ckrth0n.Prelude.{
  String, Bool, true, false, not, ◌&&◌, Option, none, some, List, [], ◌∷◌, ◌==◌, if◌then◌else◌,
  is_none,
}
use h4ckrth0n.Text.{append}
use h4ckrth0n.Text.Lines.{concat}
use h4ckrth0n.Release.Semver.{semver}
use h4ckrth0n.Release.Bump.{Script, returns, dies, bump_semver, parse_pyproject_version}
use h4ckrth0n.Release.Bump.Targets.{Document, text, Target, bump_targets}

pub record Change : Type 0 where
  pub path : String
  pub before : Document
  pub after : Document

abbrev pub Files : Type 0
Files = String → Option Document

abbrev pub change_of : Target → Document → Option Document → Option Change
change_of target before none = none
change_of target before (some after) =
    some (record { path = target.path; before = before; after = after })

abbrev pub change_in : Target → Option Document → String → String → Option Change
change_in target none old new = none
change_in target (some before) old new = change_of target before (target.rewrite before old new)

abbrev pub add_change : Option Change → List Change → List Change
add_change none changes = changes
add_change (some change) changes = change ∷ changes

unfoldable pub find_changes : Files → String → String → List Target → List Change
find_changes files old new [] = []
find_changes files old new (target ∷ targets) =
    add_change (change_in target (files target.path) old new) (find_changes files old new targets)

unfoldable pub write_text : String → Document → Files → Files
write_text path document files p = if p == path then some document else files p

unfoldable pub write_changes : List Change → Files → Files
unfolding write_text
write_changes [] files = files
write_changes (change ∷ changes) files =
    write_changes changes (write_text change.path change.after files)

pub record Args : Type 0 where
  pub to : Option String
  pub bump : Option String
  pub apply : Bool

abbrev pub given : Option String → Bool
given none = false
given (some s) = not (s == "")

abbrev pub text_or_empty : Option String → String
text_or_empty none = ""
text_or_empty (some s) = s

abbrev pub text_of : Option Document → String
text_of (some (text s)) = s
text_of _ = ""

unfoldable pub new_version : Args → String → Script String
unfolding bump_semver
new_version args old =
    if given args.to
    then returns (text_or_empty args.to)
    else bump_semver old (text_or_empty args.bump)

-- The files after the run, and the last line that it prints.
abbrev pub finish : Bool → List Change → String → String → Files → Files × Script String
finish apply [] old new files =
    (files, dies "No changes detected. Did the version already change or files move?")
finish true (change ∷ changes) old new files = (
  write_changes (change ∷ changes) files,
  returns (concat ("Applied version bump: " ∷ old ∷ " -> " ∷ new ∷ [])),
)
finish false (change ∷ changes) old new files =
    (files, returns (concat ("Dry run only. Proposed version bump: " ∷ old ∷ " -> " ∷ new ∷ [])))

abbrev pub run_to : Bool → List Target → Files → String → Script String → Files × Script String
run_to apply targets files old (dies message) = (files, dies message)
run_to apply targets files old (returns new) =
    if is_none (semver new)
    then (files, dies (append "New version must be X.Y.Z semver: " new))
    else finish apply (find_changes files old new targets) old new files

abbrev pub run_from : Args → List Target → Files → Script String → Files × Script String
run_from args targets files (dies message) = (files, dies message)
run_from args targets files (returns old) =
    run_to args.apply targets files old (new_version args old)

unfoldable pub run_targets : List Target → Args → Files → Files × Script String
run_targets targets args files =
    if not (given args.to) && not (given args.bump)
    then (files, dies "Provide either --to X.Y.Z or --bump {patch,minor,major}")
    else run_from args targets files (parse_pyproject_version (text_of (files "pyproject.toml")))

-- `main`, where pyproject.toml is there to be read. The diff that it prints is not modelled.
unfoldable pub run_bump : Args → Files → Files × Script String
run_bump args files = run_targets bump_targets args files
