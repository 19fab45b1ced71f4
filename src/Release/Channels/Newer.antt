-- ===== src/Release/Channels/Newer.antt =====
-- What is published is newer than every stable release.
use h4ckrth0n.Prelude.{
  ◌≡◌, refl, sym, ap, ◌∙◌, inl, inr, String, true, false, none, some, List, arith, Option-cases,
  Bool-cases, contains, ◌==◌,
}
use h4ckrth0n.Result.{Result, ok, err}
use h4ckrth0n.Json.{Json}
use h4ckrth0n.Release.Semver.{Version, semver, semver_tag, older, format_version, latest_stable_tag}
use h4ckrth0n.Release.Semver.Reading.{semver-format_version}
use h4ckrth0n.Release.Semver.Latest.{latest_stable_tag-Newest, latest_stable_tag-Found}
use h4ckrth0n.Release.Channels.{
  Environ, DateTime, Versions, compute_versions, prerelease_versions, channel_versions,
  base_version, next_patch, stable_versions, stable_release, nightly_versions, dev_versions,
  commit_sha, tag_ref, map_ok,
}

map_ok-cases :
    {A B : Type 0} (f : A → B) (r : Result A) (b : B)
    → map_ok f r ≡ ok b
    → (a : A) × (r ≡ ok a) × (f a ≡ b)
map_ok-cases f (ok a) b h = (a, refl, cc)
map_ok-cases f (err e) b h = cc

older-next_patch : (v w : Version) → older v w ≡ false → older w (next_patch v) ≡ true
unfolding older next_patch
older-next_patch v w h = ground (arith, h)

-- The base version of a prerelease is the one that was chosen.
prerelease-base :
    (env : Environ) (now : DateTime) (git_head : Result String) (channel : String) (base : Version)
    (v : Versions)
    → prerelease_versions env now git_head channel base ≡ ok v
    → v.base_version ≡ format_version base
unfolding prerelease_versions nightly_versions dev_versions
prerelease-base env now git_head channel base v h = elim (Bool-cases (channel == "nightly")) [
  | inl e ↦
      let h' : ok (nightly_versions now channel (format_version base)) ≡ ok v = rw e at h in
      let same : nightly_versions now channel (format_version base) ≡ v = cc in
      ap (λ x. x.base_version) (sym same)
  | inr e ↦
      let h' : map_ok (dev_versions now channel (format_version base)) (commit_sha env git_head)
          ≡ ok v =
        rw e at h in
      let (sha, _, made) =
        map_ok-cases (dev_versions now channel (format_version base)) (commit_sha env git_head) v
          h' in
      ap (λ x. x.base_version) (sym made)
]

-- A prerelease that is computed has a base version that is newer than every stable tag.
pub prerelease_newer :
    (env : Environ) (now : DateTime) (raw_tags : List String) (git_head : Result String)
    (pyproject package_json : Json) (channel : String) (v : Versions)
    → channel == "stable" ≡ false
    → compute_versions env now (some raw_tags) git_head pyproject package_json channel ≡ ok v
    → (t : String) (w : Version) → contains t raw_tags ≡ true
    → semver_tag t ≡ some w
    → (b : Version) × (semver v.base_version ≡ some b) × (older w b ≡ true)
unfolding compute_versions channel_versions base_version
prerelease_newer env now raw_tags git_head pyproject package_json channel v other computed t w c e =
    elim (Option-cases (latest_stable_tag raw_tags)) [
      | inl missing ↦ absurd (latest_stable_tag-Found raw_tags t w c e missing)
      | inr ((tag, latest), found) ↦
          let (_, _, newest) = latest_stable_tag-Newest raw_tags tag latest found in
          let made : prerelease_versions env now git_head channel (next_patch latest) ≡ ok v =
            rw (other, found) at computed in
          let base = prerelease-base env now git_head channel (next_patch latest) v made in
          (
            next_patch latest,
            ap semver base ∙ semver-format_version (next_patch latest),
            older-next_patch latest w (newest t w c e),
          )
    ]

-- A stable release is published under the version of the tag that the environment names.
pub stable_of_tag :
    (env : Environ) (now : DateTime) (raw_tags : List String) (git_head : Result String)
    (pyproject package_json : Json) (v : Versions)
    → compute_versions env now (some raw_tags) git_head pyproject package_json "stable" ≡ ok v
    → (w : Version) × (semver_tag (tag_ref env) ≡ some w)
      × (semver v.npm_version ≡ some w)
      × (v.npm_version ≡ v.pypi_version)
unfolding compute_versions channel_versions stable_versions stable_release
stable_of_tag env now raw_tags git_head pyproject package_json v computed =
    elim (Option-cases (semver_tag (tag_ref env))) [
      | inl e ↦
          absurd
            (let clash : stable_release "stable" (tag_ref env) none ≡ ok v = rw e at computed in cc)
      | inr (w, e) ↦
          let made : stable_release "stable" (tag_ref env) (some w) ≡ ok v = rw e at computed in
          let npm : format_version w ≡ v.npm_version = cc in
          let pypi : format_version w ≡ v.pypi_version = cc in
          (w, e, ap semver (sym npm) ∙ semver-format_version w, sym npm ∙ pypi)
    ]
