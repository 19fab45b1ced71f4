-- ===== src/Release/Bump/Manifests.antt =====
-- What an applied bump leaves in the two manifests that are JSON.
use h4ckrth0n.Prelude.{
  ◌≡◌, ◌≢◌, ◌⊎◌, inl, inr, refl, sym, ap, subst, ◌∙◌, String, true, false, Option, none, some, List,
  ◌∷◌, ◌==◌, Bool-cases, Option-cases, is_none, eq_refl,
}
use h4ckrth0n.Json.{str, obj, Fields, lookup}
use h4ckrth0n.Release.Semver.{semver}
use h4ckrth0n.Release.Bump.{
  Script, returns, dies, bumped, bump_semver, bump_found, parse_pyproject_version,
}
use h4ckrth0n.Release.Bump.Targets.{
  Document, json, Target, bump_targets, set_field, with_version, update_package_json_version,
  update_openapi_info_version,
}
use h4ckrth0n.Release.Bump.Main.{
  Files, Args, change_in, Change, new_version, run_bump, given, text_of, text_or_empty,
}
use h4ckrth0n.Release.Bump.Runs.{rewritten, after_change, run_bump-rewritten}
use h4ckrth0n.Release.Bump.Keys.{VersionKey, lookup-set_field, lookup-set_field_other}

abbrev pub package_json : String
package_json = "packages/create-h4ckath0n/package.json"

abbrev pub openapi_json : String
openapi_json = "packages/create-h4ckath0n/templates/fullstack/api/openapi.json"

module _ (files : Files) (old new : String) where
  passed_over :
      (target : Target) (targets : List Target) (p : String) (was : Option Document)
      → p == target.path ≡ false
      → rewritten files old new (target ∷ targets) p was ≡ rewritten files old new targets p was
  unfolding rewritten
  passed_over target targets p was ne =
      kept (change_in target (files target.path) old new) (rewritten files old new targets p was)
    where
      kept : (o : Option Change) (d : Option Document) → after_change target p o d ≡ d
      kept none d = refl
      kept (some change) d = rw ne refl

  reached :
      (target : Target) (targets : List Target) (p : String) (was : Option Document)
      (before after : Document)
      → p == target.path ≡ true
      → files target.path ≡ some before
      → target.rewrite before old new ≡ some after
      → rewritten files old new (target ∷ targets) p was ≡ some after
  unfolding rewritten
  reached target targets p was before after here there written = rw (there, written, here) refl

version-updated :
    (old new : String) (fields : Fields)
    → lookup "version" fields ≡ some (str old)
    → with_version old new fields ≡ some (set_field "version" (str new) fields)
unfolding with_version
version-updated old new fields h = rw (h, eq_refl old) refl

package-updated :
    (old new : String) (fields : Fields)
    → lookup "version" fields ≡ some (str old)
    → update_package_json_version old new fields ≡ some (set_field "version" (str new) fields)
unfolding update_package_json_version
package-updated old new fields h = version-updated old new fields h

openapi-updated :
    (old new : String) (fields info : Fields)
    → lookup "info" fields ≡ some (obj info)
    → lookup "version" info ≡ some (str old)
    → update_openapi_info_version old new fields
      ≡ some (set_field "info" (obj (set_field "version" (str new) info)) fields)
unfolding update_openapi_info_version
openapi-updated old new fields info h k = rw (h, version-updated old new info k) refl

-- The version that the operator asked for: the one given, or a bump of the old one by a given part.
abbrev pub Asked : Args → String → String → Type 0
Asked args old new =
    (args.to ≡ some new)
    ⊎ ((part : String) × (args.bump ≡ some part) × (bump_semver old part ≡ returns new))

no_part : (old new : String) → bump_semver old "" ≡ returns new → ⊥
unfolding bump_semver bumped
no_part old new h = elim (Option-cases (semver old)) [
  | inl e ↦ let clash : bump_found none old "" ≡ returns new = rw e at h in cc
  | inr (v, e) ↦ let clash : bump_found (some v) old "" ≡ returns new = rw e at h in cc
]

asked_to :
    (o : Option String) (new : String)
    → given o ≡ true
    → returns (text_or_empty o) ≡ returns new
    → o ≡ some new
asked_to none new g h = absurd cc
asked_to (some s) new g h = cc

asked_part :
    (o : Option String) (old new : String)
    → bump_semver old (text_or_empty o) ≡ returns new
    → (part : String) × (o ≡ some part) × (bump_semver old part ≡ returns new)
asked_part none old new h = absurd (no_part old new h)
asked_part (some part) old new h = (part, refl, h)

new_version-Asked :
    (args : Args) (old new : String) → new_version args old ≡ returns new → Asked args old new
unfolding new_version
new_version-Asked args old new h = elim (Bool-cases (given args.to)) [
  | inl e ↦ inl (asked_to args.to new e (rw e at h))
  | inr e ↦ inr (asked_part args.bump old new (rw e at h))
]

-- A JSON object whose info has its version set, with every other key of the two as it was.
abbrev pub InfoVersion : String → Option Document → Option Document → Type 0
InfoVersion version was now =
    (fields : Fields) × (fields' : Fields) × (info : Fields) × (info' : Fields) × (was
      ≡ some (json fields))
    × (now ≡ some (json fields'))
    × (lookup "info" fields ≡ some (obj info))
    × (lookup "info" fields' ≡ some (obj info'))
    × (lookup "version" info' ≡ some (str version))
    × ((key : String) → key ≢ "version" → lookup key info' ≡ lookup key info)
    × ((key : String) → key ≢ "info" → lookup key fields' ≡ lookup key fields)

returned : Script String → String → String
returned (returns s) t = s
returned (dies m) t = t

same_text : {a b : String} → returns a ≡ returns b → a ≡ b
unfolding returned
same_text {a} h = ap (λ r. returned r a) h

module _ (args : Args) (files : Files) (message : String) (apply : args.apply ≡ true)
    (h : (run_bump args files).1 ≡ returns message) where
  at_path :
      (old new p : String)
      → parse_pyproject_version (text_of (files "pyproject.toml")) ≡ returns old
      → new_version args old ≡ returns new
      → (run_bump args files).0 p ≡ rewritten files old new bump_targets p (files p)
  at_path old new p read chosen =
      let (o, n, read', chosen', valid, done) = run_bump-rewritten args files message p apply h in
      let e : o ≡ old = same_text (sym read' ∙ read) in
      let f : n ≡ new = same_text (sym chosen' ∙ ap (new_version args) e ∙ chosen) in
      subst (λ m. (run_bump args files).0 p ≡ rewritten files old m bump_targets p (files p)) f
        (subst (λ m. (run_bump args files).0 p ≡ rewritten files m n bump_targets p (files p)) e
          done)

package_rewritten :
    (files : Files) (old new : String) (fields : Fields)
    → files package_json ≡ some (json fields)
    → lookup "version" fields ≡ some (str old)
    → rewritten files old new bump_targets package_json (files package_json)
      ≡ some (json (set_field "version" (str new) fields))
package_rewritten files old new fields there has_old =
    let p = package_json in
    passed_over files old new _ _ p _ refl
    ∙ passed_over files old new _ _ p _ refl
    ∙ passed_over files old new _ _ p _ refl
    ∙ reached files old new _ _ p _ (json fields) _ refl there
        (rw (package-updated old new fields has_old) refl)

openapi_rewritten :
    (files : Files) (old new : String) (api info : Fields)
    → files openapi_json ≡ some (json api)
    → lookup "info" api ≡ some (obj info)
    → lookup "version" info ≡ some (str old)
    → rewritten files old new bump_targets openapi_json (files openapi_json)
      ≡ some (json (set_field "info" (obj (set_field "version" (str new) info)) api))
openapi_rewritten files old new api info there has_info has_old =
    let p = openapi_json in
    passed_over files old new _ _ p _ refl
    ∙ passed_over files old new _ _ p _ refl
    ∙ passed_over files old new _ _ p _ refl
    ∙ passed_over files old new _ _ p _ refl
    ∙ passed_over files old new _ _ p _ refl
    ∙ passed_over files old new _ _ p _ refl
    ∙ reached files old new _ _ p _ (json api) _ refl there
        (rw (openapi-updated old new api info has_info has_old) refl)

-- A run that applies its changes and goes through, over manifests that have the old version of
-- pyproject.toml, chooses the version that the operator asked for, a valid one, and sets it in
-- package.json and in the info of openapi.json; every other key of the two is as it was.
pub applied_run_bumps :
    (args : Args) (files : Files) (message old : String) (fields api info : Fields)
    → args.apply ≡ true
    → (run_bump args files).1 ≡ returns message
    → parse_pyproject_version (text_of (files "pyproject.toml")) ≡ returns old
    → files package_json ≡ some (json fields)
    → lookup "version" fields ≡ some (str old)
    → files openapi_json ≡ some (json api)
    → lookup "info" api ≡ some (obj info)
    → lookup "version" info ≡ some (str old)
    → (new : String) × Asked args old new
      × (is_none (semver new) ≡ false)
      × VersionKey new (files package_json) ((run_bump args files).0 package_json)
      × InfoVersion new (files openapi_json) ((run_bump args files).0 openapi_json)
applied_run_bumps args files message old fields api info apply h read package_there package_old
      api_there info_there info_old =
    let (o, n, read', chosen', valid, _) =
      run_bump-rewritten args files message package_json apply h in
    let chosen : new_version args old ≡ returns n =
      subst (λ m. new_version args m ≡ returns n) (same_text (sym read' ∙ read)) chosen' in
    let fields' = set_field "version" (str n) fields in
    let info' = set_field "version" (str n) info in
    (
      n,
      new_version-Asked args old n chosen,
      valid,
      (
        fields,
        fields',
        package_there,
        at_path args files message apply h old n package_json read chosen
            ∙ package_rewritten files old n fields package_there package_old,
        lookup-set_field "version" (str n) fields,
        λ key ne. lookup-set_field_other "version" key (str n) fields ne,
      ),
      (
        api,
        set_field "info" (obj info') api,
        info,
        info',
        api_there,
        at_path args files message apply h old n openapi_json read chosen
            ∙ openapi_rewritten files old n api info api_there info_there info_old,
        info_there,
        lookup-set_field "info" (obj info') api,
        lookup-set_field "version" (str n) info,
        λ key ne. lookup-set_field_other "version" key (str n) info ne,
        λ key ne. lookup-set_field_other "info" key (obj info') api ne,
      ),
    )
