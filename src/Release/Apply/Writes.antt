-- ===== src/Release/Apply/Writes.antt =====
-- What a run of the apply script leaves in the files.
use h4ckrth0n.Prelude.{
  ◌≡◌, ◌⊎◌, refl, sym, ap, subst, ◌∙◌, inl, inr, String, Bool, true, false, Option, none, some, [],
  ◌∷◌, Bool-cases, ◌==◌, if◌then◌else◌,
}
use h4ckrth0n.Json.{str}
use h4ckrth0n.Result.{Result, ok, err, Error}
use h4ckrth0n.Release.Bump.Targets.{Document, text, json, set_field}
use h4ckrth0n.Release.Bump.Main.{Files, write_text}
use h4ckrth0n.Release.Apply.{
  Run, write_pyproject, update_pyproject_version, fallback_in, fallback_or, update_fallback,
  write_if, update_uv_lock, package_path, lock_path, version_py, init_py, set_package_version,
  set_lock_version, and_then, after_pyproject, after_fallback, apply_versions, validate_versions,
  run_apply,
}

-- A step does not write a path.
abbrev pub Keeps : String → Files → Run → Type 0
Keeps p files r = r.0 p ≡ files p

-- A run that raises has not written a path.
abbrev Spares : String → Files → Run → Type 0
Spares p files r = (e : Error) → r.1 ≡ err e → r.0 p ≡ files p

and_then-Spares :
    (p : String) (files : Files) (r : Run) (next : Files → Run)
    → Keeps p files r
    → Keeps lock_path files r
    → ((f : Files) → f lock_path ≡ files lock_path → Spares p f (next f))
    → Spares p files (and_then r next)
and_then-Spares p files (f, ok u) next k l s e h = s f l e h ∙ k
and_then-Spares p files (f, err d) next k l s e h = k

pub write_text-other :
    (path p : String) (d : Document) (files : Files)
    → p == path ≡ false
    → write_text path d files p ≡ files p
unfolding write_text
write_text-other path p d files ne = rw ne

module _ (p : String) (version : String) where
  write_pyproject-Keeps :
      (files : Files) (updated : Option String)
      → p == "pyproject.toml" ≡ false
      → Keeps p files (write_pyproject files updated)
  write_pyproject-Keeps files none ne = refl
  write_pyproject-Keeps files (some t) ne = write_text-other _ p (text t) files ne

  pub update_pyproject_version-Keeps :
      (files : Files) (d : Option Document)
      → p == "pyproject.toml" ≡ false
      → Keeps p files (update_pyproject_version version files d)
  unfolding update_pyproject_version
  update_pyproject_version-Keeps files none ne = refl
  update_pyproject_version-Keeps files (some (json fields)) ne = refl
  update_pyproject_version-Keeps files (some (text content)) ne = write_pyproject-Keeps files _ ne

  fallback_or-Keeps :
      (candidate : String) (files : Files) (rest : Run) (t : Option String)
      → p == candidate ≡ false
      → Keeps p files rest
      → Keeps p files (fallback_or candidate files rest t)
  fallback_or-Keeps candidate files rest none ne k = k
  fallback_or-Keeps candidate files rest (some t) ne k = write_text-other _ p (text t) files ne

  pub update_fallback-Keeps :
      (files : Files)
      → p == version_py ≡ false
      → p == init_py ≡ false
      → Keeps p files (update_fallback version files (version_py ∷ init_py ∷ []))
  unfolding update_fallback
  update_fallback-Keeps files a b =
      fallback_or-Keeps version_py files (update_fallback version files (init_py ∷ []))
        (fallback_in version (files version_py)) a
        (fallback_or-Keeps init_py files (update_fallback version files [])
          (fallback_in version (files init_py)) b refl)

  write_if-kept :
      (path : String) (files : Files) (t : Option String)
      → p == path ≡ false
      → write_if path files t p ≡ files p
  write_if-kept path files none ne = refl
  write_if-kept path files (some t) ne = write_text-other path p (text t) files ne

  pub update_uv_lock-kept :
      (files : Files) (d : Option Document)
      → p == "uv.lock" ≡ false
      → update_uv_lock version files d p ≡ files p
  unfolding update_uv_lock
  update_uv_lock-kept files none ne = refl
  update_uv_lock-kept files (some (json fields)) ne = refl
  update_uv_lock-kept files (some (text content)) ne = write_if-kept _ files _ ne

  pub set_lock_version-Keeps :
      (files : Files) (d : Option Document)
      → p == lock_path ≡ false
      → Keeps p files (set_lock_version version files d)
  unfolding set_lock_version
  set_lock_version-Keeps files none ne = refl
  set_lock_version-Keeps files (some (text content)) ne = refl
  set_lock_version-Keeps files (some (json fields)) ne = write_text-other lock_path p _ files ne

-- A file that is missing, or holds a JSON object.
abbrev pub is_readable : Option Document → Bool
is_readable none = true
is_readable (some (json fields)) = true
is_readable (some (text content)) = false

-- The last step cannot fail after this path was written.
abbrev IsSafe : String → Option Document → Type 0
IsSafe p lock = (p == package_path ≡ false) ⊎ (is_readable lock ≡ true)

lock-Spares :
    (p npm : String) (files k : Files) (lock : Option Document)
    → IsSafe p lock
    → (p == package_path ≡ false → k p ≡ files p)
    → Spares p files (set_lock_version npm k lock)
unfolding set_lock_version
lock-Spares p npm files k none safe other e h = absurd cc
lock-Spares p npm files k (some (json fields)) safe other e h = absurd cc
lock-Spares p npm files k (some (text content)) (inl ne) other e h = other ne
lock-Spares p npm files k (some (text content)) (inr readable) other e h = absurd cc

package-Spares :
    (p npm : String) (files : Files) (d : Option Document)
    → IsSafe p (files lock_path)
    → Spares p files
        (and_then (set_package_version npm files d) λ k. set_lock_version npm k (k lock_path))
unfolding set_package_version
package-Spares p npm files none safe e h = refl
package-Spares p npm files (some (text content)) safe e h = refl
package-Spares p npm files (some (json fields)) safe e h =
    let d = json (set_field "version" (str npm) fields) in
    let k = write_text package_path d files in
    lock-Spares p npm files k (k lock_path)
      (subst (IsSafe p) (sym (write_text-other package_path lock_path d files refl)) safe)
      (write_text-other package_path p d files) e h

-- A path that the steps before these do not write.
abbrev IsElsewhere : String → Type 0
IsElsewhere p =
    (p == "pyproject.toml" ≡ false)
    × (p == version_py ≡ false)
    × (p == init_py ≡ false)
    × (p == "uv.lock" ≡ false)

apply_versions-Spares :
    (p pypi npm : String) (files : Files)
    → IsElsewhere p
    → IsSafe p (files lock_path)
    → Spares p files (apply_versions pypi npm files)
unfolding apply_versions
apply_versions-Spares p pypi npm files (a, b, c, d) safe =
    and_then-Spares p files (update_pyproject_version pypi files (files "pyproject.toml"))
      (after_pyproject pypi npm)
      (update_pyproject_version-Keeps p pypi files (files "pyproject.toml") a)
      (update_pyproject_version-Keeps lock_path pypi files (files "pyproject.toml") refl)
      λ f l.
        and_then-Spares p f (update_fallback pypi f (version_py ∷ init_py ∷ []))
          (after_fallback pypi npm) (update_fallback-Keeps p pypi f b c)
          (update_fallback-Keeps lock_path pypi f refl refl)
          λ g m e h.
            let k = update_uv_lock pypi g (g "uv.lock") in
            let same = update_uv_lock-kept lock_path pypi g (g "uv.lock") refl ∙ m ∙ l in
            package-Spares p npm k (k package_path) (subst (IsSafe p) (sym same) safe) e h
            ∙ update_uv_lock-kept p pypi g (g "uv.lock") d

run_apply-Spares :
    (toml : String → Result String) (p channel pypi npm : String) (files : Files)
    → IsElsewhere p
    → IsSafe p (files lock_path)
    → Spares p files (run_apply toml channel pypi npm files)
unfolding run_apply
run_apply-Spares toml p channel pypi npm files away safe = elim (Bool-cases (channel == "stable")) [
  | inl stable ↦
      subst (λ b. Spares p files (if b then checked else written)) (sym stable) (λ e h. refl)
  | inr other ↦
      subst (λ b. Spares p files (if b then checked else written)) (sym other)
        (apply_versions-Spares p pypi npm files away safe)
]
  where
    checked : Run
    checked = (files, validate_versions toml files pypi)

    written : Run
    written = apply_versions pypi npm files

-- Whatever the channel, a run that raises has written neither file of the npm package, if
-- package-lock.json is missing or holds a JSON object: what can fail otherwise comes before them.
pub failed_apply_spares_npm :
    (toml : String → Result String) (channel pypi npm : String) (files files' : Files) (e : Error)
    → is_readable (files lock_path) ≡ true
    → run_apply toml channel pypi npm files ≡ (files', err e)
    → (files' package_path ≡ files package_path) × (files' lock_path ≡ files lock_path)
failed_apply_spares_npm toml channel pypi npm files files' e readable h =
    let spares = λ (p : String) (away : IsElsewhere p).
      ap (λ r. r.0 p) (sym h)
      ∙ run_apply-Spares toml p channel pypi npm files away (inr readable) e (ap (λ r. r.1) h) in
    (spares package_path (refl, refl, refl, refl), spares lock_path (refl, refl, refl, refl))
