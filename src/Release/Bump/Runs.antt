-- ===== src/Release/Bump/Runs.antt =====
-- What a run of the bump script does to the files.
use h4ckrth0n.Prelude.{
  ◌≡◌, refl, sym, ap, subst, ◌∙◌, inl, inr, String, Bool, true, false, not, ◌&&◌, Option, none,
  some, List, [], ◌∷◌, map, arith, Option-cases, Bool-cases, ◌==◌, if◌then◌else◌, is_none, distinct,
  contains, eq_iff, eq_refl,
}
use h4ckrth0n.Text.{append}
use h4ckrth0n.Release.Semver.{semver}
use h4ckrth0n.Release.Bump.{Script, returns, dies, parse_pyproject_version}
use h4ckrth0n.Release.Bump.Targets.{Document, Target, bump_targets}
use h4ckrth0n.Release.Bump.Main.{
  Change, Files, Args, change_in, change_of, find_changes, write_text, write_changes, new_version,
  run_targets, run_bump, run_from, run_to, finish, given, text_of,
}

flip_ne : (a b : String) → a == b ≡ false → b == a ≡ false
flip_ne a b h = elim (Bool-cases (b == a)) [
  | inr e ↦ e
  | inl e ↦
      let same : b ≡ a = (eq_iff b a).0 e in
      absurd (let clash : b == b ≡ false = rw (← same) at h in cc (eq_refl b))
]

-- A run that does not apply its changes, or that fails.
abbrev is_unwritten : Args → Script String → Bool
is_unwritten args (returns message) = not args.apply
is_unwritten args (dies message) = true

finish-Unwritten :
    (args : Args) (changes : List Change) (old new : String) (files : Files)
    → is_unwritten args (finish args.apply changes old new files).1 ≡ true
    → (finish args.apply changes old new files).0 ≡ files
finish-Unwritten args [] old new files h = refl
finish-Unwritten args (change ∷ changes) old new files h = elim (Bool-cases args.apply) [
  | inl e ↦ absurd (let clash : false ≡ true = rw e at h in cc)
  | inr e ↦ rw e
]

run_to-Unwritten :
    (args : Args) (targets : List Target) (files : Files) (old : String) (new : Script String)
    → is_unwritten args (run_to args.apply targets files old new).1 ≡ true
    → (run_to args.apply targets files old new).0 ≡ files
run_to-Unwritten args targets files old (dies m) h = refl
run_to-Unwritten args targets files old (returns new) h = elim (Bool-cases (is_none (semver new))) [
  | inl e ↦ rw e
  | inr e ↦
      rw e (finish-Unwritten args (find_changes files old new targets) old new files (rw e at h))
]

run_from-Unwritten :
    (args : Args) (targets : List Target) (files : Files) (old : Script String)
    → is_unwritten args (run_from args targets files old).1 ≡ true
    → (run_from args targets files old).0 ≡ files
run_from-Unwritten args targets files (dies m) h = refl
run_from-Unwritten args targets files (returns old) h =
    run_to-Unwritten args targets files old (new_version args old) h

-- A run without --apply, and a run that dies, leave every file as it was.
pub unapplied_run_writes_nothing :
    (args : Args) (files : Files)
    → is_unwritten args (run_bump args files).1 ≡ true
    → (run_bump args files).0 ≡ files
unfolding run_bump run_targets
unapplied_run_writes_nothing args files h =
    elim (Bool-cases (not (given args.to) && not (given args.bump))) [
      | inl e ↦ rw e
      | inr e ↦ rw e (
          run_from-Unwritten args bump_targets files
            (parse_pyproject_version (text_of (files "pyproject.toml"))) (rw e at h))
    ]

abbrev pub after_change : Target → String → Option Change → Option Document → Option Document
after_change target p none other = other
after_change target p (some change) other = if p == target.path then some change.after else other

-- What a run that applies its changes is to leave at a path: the rewritten text of the target with
-- this path if its rewriting gives one, and otherwise what was there.
unfoldable pub rewritten :
    Files → String → String → List Target → String → Option Document → Option Document
rewritten files old new [] p was = was
rewritten files old new (target ∷ targets) p was =
    after_change target p (change_in target (files target.path) old new)
      (rewritten files old new targets p was)

abbrev path_of : Target → String
path_of target = target.path

rewritten_other :
    (files : Files) (old new : String) (targets : List Target) (p : String) (was : Option Document)
    → contains p (map path_of targets) ≡ false
    → rewritten files old new targets p was ≡ was
unfolding rewritten contains
rewritten_other files old new [] p was h = refl
rewritten_other files old new (target ∷ targets) p was h =
    let rest = rewritten_other files old new targets p was (ground (arith, h)) in
    let differs : target.path == p ≡ false = ground (arith, h) in
    elim (Option-cases (change_in target (files target.path) old new)) [
      | inl e ↦ rw (e, rest)
      | inr (change, e) ↦ rw (e, flip_ne target.path p differs, rest)
    ]

path_of_change :
    (target : Target) (before : Option Document) (old new : String) (change : Change)
    → change_in target before old new ≡ some change
    → change.path ≡ target.path
path_of_change target none old new change h = cc
path_of_change target (some before) old new change h =
    elim (Option-cases (target.rewrite before old new)) [
      | inl e ↦ absurd (let clash : change_of target before none ≡ some change = rw e at h in cc)
      | inr (text, e) ↦
          let made : change_of target before (some text) ≡ some change = rw e at h in cc
    ]

write_changes-rewritten :
    (files g : Files) (old new : String) (targets : List Target) (p : String)
    → distinct (map path_of targets) ≡ true
    → write_changes (find_changes files old new targets) g p
      ≡ rewritten files old new targets p (g p)
unfolding write_changes find_changes rewritten distinct write_text
write_changes-rewritten files g old new [] p d = refl
write_changes-rewritten files g old new (target ∷ targets) p d =
    let others : contains target.path (map path_of targets) ≡ false = ground (arith, d) in
    let d' : distinct (map path_of targets) ≡ true = ground (arith, d) in
    elim (Option-cases (change_in target (files target.path) old new)) [
      | inl e ↦ rw (e, write_changes-rewritten files g old new targets p d')
      | inr (change, e) ↦
          let here = path_of_change target (files target.path) old new change e in
          let rest =
            write_changes-rewritten files (write_text change.path change.after g) old new targets p
              d' in
          rw (e, rest, here)
            (elim (Bool-cases (p == target.path)) [
              | inl q ↦
                  let others' : contains p (map path_of targets) ≡ false =
                    rw ((eq_iff p target.path).0 q) others in
                  rw q (rewritten_other files old new targets p (some change.after) others')
              | inr q ↦ rw q
            ])
    ]

finish-Applied :
    (changes : List Change) (old new : String) (files : Files) (message : String)
    → (finish true changes old new files).1 ≡ returns message
    → (finish true changes old new files).0 ≡ write_changes changes files
finish-Applied [] old new files message h = cc
finish-Applied (change ∷ changes) old new files message h = refl

-- The run from a version on that was read: it writes the changes to a valid version.
abbrev Writes : List Target → Files → String → Script String → Files → Type 0
Writes targets files old new files' =
    (v : String) × (new ≡ returns v)
    × (is_none (semver v) ≡ false)
    × (files' ≡ write_changes (find_changes files old v targets) files)

run_to-Applied :
    (targets : List Target) (files : Files) (old : String) (new : Script String) (message : String)
    → (run_to true targets files old new).1 ≡ returns message
    → Writes targets files old new (run_to true targets files old new).0
run_to-Applied targets files old (dies m) message h = cc
run_to-Applied targets files old (returns v) message h = elim (Bool-cases (is_none (semver v))) [
  | inl e ↦ absurd (
      let clash : dies (append "New version must be X.Y.Z semver: " v) ≡ returns message =
        rw e at h in
      cc)
  | inr e ↦
      let h' : (finish true (find_changes files old v targets) old v files).1 ≡ returns message =
        rw e at h in
      (v, refl, e, rw e (finish-Applied (find_changes files old v targets) old v files message h'))
]

run_from-Applied :
    (args : Args) (targets : List Target) (files : Files) (old : Script String) (message : String)
    → args.apply ≡ true
    → (run_from args targets files old).1 ≡ returns message
    → (o : String) × (old ≡ returns o)
      × Writes targets files o (new_version args o) (run_from args targets files old).0
run_from-Applied args targets files (dies m) message apply h = cc
run_from-Applied args targets files (returns o) message apply h =
    let h' : (run_to true targets files o (new_version args o)).1 ≡ returns message =
      subst (λ b. (run_to b targets files o (new_version args o)).1 ≡ returns message) apply h in
    (
      o,
      refl,
      subst
          (λ b.
            Writes targets files o (new_version args o)
              (run_to b targets files o (new_version args o)).0)
          (sym apply) (run_to-Applied targets files o (new_version args o) message h'),
    )

applied_targets :
    (targets : List Target) (args : Args) (files : Files) (message : String) (p : String)
    → distinct (map path_of targets) ≡ true
    → args.apply ≡ true
    → (run_targets targets args files).1 ≡ returns message
    → (old : String) × (new : String) × (parse_pyproject_version (text_of (files "pyproject.toml"))
        ≡ returns old)
      × (new_version args old ≡ returns new)
      × (is_none (semver new) ≡ false)
      × ((run_targets targets args files).0 p ≡ rewritten files old new targets p (files p))
unfolding run_targets
applied_targets targets args files message p d apply h =
    elim (Bool-cases (not (given args.to) && not (given args.bump))) [
      | inl e ↦ absurd (
          let clash : dies "Provide either --to X.Y.Z or --bump {patch,minor,major}"
              ≡ returns message =
            rw e at h in
          cc)
      | inr e ↦
          let read = parse_pyproject_version (text_of (files "pyproject.toml")) in
          let h' : (run_from args targets files read).1 ≡ returns message = rw e at h in
          let (old, was, (new, chosen, valid, done)) =
            run_from-Applied args targets files read message apply h' in
          (
            old,
            new,
            was,
            chosen,
            valid,
            rw e (ap (λ fs. fs p) done ∙ write_changes-rewritten files files old new targets p d),
          )
    ]

distinct_paths : distinct (map path_of bump_targets) ≡ true
unfolding distinct contains
distinct_paths = refl

-- A run that applies its changes and goes through, and what it leaves at a path.
pub run_bump-rewritten :
    (args : Args) (files : Files) (message : String) (p : String)
    → args.apply ≡ true
    → (run_bump args files).1 ≡ returns message
    → (old : String) × (new : String) × (parse_pyproject_version (text_of (files "pyproject.toml"))
        ≡ returns old)
      × (new_version args old ≡ returns new)
      × (is_none (semver new) ≡ false)
      × ((run_bump args files).0 p ≡ rewritten files old new bump_targets p (files p))
unfolding run_bump
run_bump-rewritten args files message p apply h =
    applied_targets bump_targets args files message p distinct_paths apply h
