-- ===== src/Release/Bump/Bumped.antt =====
-- The version that `bump_semver` gives.
use h4ckrth0n.Prelude.{
  ◌≡◌, refl, sym, ap, ◌∙◌, inl, inr, String, true, none, some, arith, Option-cases,
}
use h4ckrth0n.Release.Semver.{Version, semver, older, format_version}
use h4ckrth0n.Release.Semver.Reading.{semver-format_version}
use h4ckrth0n.Release.Bump.{Script, returns, dies, bumped, bump_semver, bump_found, map_script}

bumped-older : (v w : Version) (bump : String) → bumped v bump ≡ returns w → older v w ≡ true
unfolding bumped older
bumped-older v w bump h = ground (arith, h)

-- A bump that goes through reads an old version and gives a text that reads as a newer one.
pub bump_semver-Newer :
    (old bump new : String)
    → bump_semver old bump ≡ returns new
    → (v : Version) × (w : Version) × (semver old ≡ some v)
      × (semver new ≡ some w)
      × (bumped v bump ≡ returns w)
      × (older v w ≡ true)
unfolding bump_semver
bump_semver-Newer old bump new h = elim (Option-cases (semver old)) [
  | inl e ↦ absurd (let clash : bump_found none old bump ≡ returns new = rw e at h in cc)
  | inr (v, e) ↦
      let h' : map_script format_version (bumped v bump) ≡ returns new = rw e at h in
      let (w, made, same) = made_by (bumped v bump) h' in
      (v, w, e, ap semver (sym same) ∙ semver-format_version w, made, bumped-older v w bump made)
]
  where
    made_by :
        (r : Script Version)
        → map_script format_version r ≡ returns new
        → (w : Version) × (r ≡ returns w) × (format_version w ≡ new)
    made_by (returns w) k = (w, refl, cc)
    made_by (dies m) k = cc
