-- ===== src/Release/Semver/Latest.antt =====
-- The tag that `latest_stable_tag` gives.
use h4ckrth0n.Prelude.{
  ◌≡◌, refl, sym, ap, ◌∙◌, inl, inr, String, Bool, true, false, not, ◌&&◌, Every, Every-imp,
  eq_refl, none, some, List, [], ◌∷◌, arith, Bool-cases, Option-cases, contains, ◌==◌, eq_iff,
  if◌then◌else◌, subst,
}
use h4ckrth0n.Release.Semver.{
  Version, semver_tag, older, stable_tags, latest, latest_stable_tag, tag_and_version,
}

stable_tags-nil : stable_tags [] ≡ []
unfolding stable_tags
stable_tags-nil = refl

older_irrefl : (v : Version) → older v v ≡ false
unfolding older
older_irrefl v = ground arith

-- `not older` is transitive: the order of tuples is total.
older_trans : (u v w : Version) → older v u ≡ false → older w v ≡ false → older w u ≡ false
unfolding older
older_trans u v w h k = ground arith

older_asym : (v w : Version) → older v w ≡ true → older w v ≡ false
unfolding older
older_asym v w h = ground arith

-- No version of a list is newer.
none_newer : Version → List (Version × String) → Bool
none_newer v [] = true
none_newer v (x ∷ xs) = not (older v x.0) && none_newer v xs

abbrev Best : Version × String → Version × String → List (Version × String) → Bool → Type 0
Best best x xs b = none_newer (latest (if b then x else best) xs).0 (best ∷ x ∷ xs) ≡ true

latest-none_newer :
    (best : Version × String) (xs : List (Version × String))
    → none_newer (latest best xs).0 (best ∷ xs) ≡ true
unfolding latest none_newer
latest-none_newer best [] = let same = older_irrefl best.0 in rw same
latest-none_newer best (x ∷ xs) = elim (Bool-cases (older best.0 x.0)) [
  | inl e ↦
      let rest = latest-none_newer x xs in
      let last : older (latest x xs).0 x.0 ≡ false = ground (arith, rest) in
      let h = older_trans best.0 x.0 (latest x xs).0 (older_asym best.0 x.0 e) last in
      subst (Best best x xs) (sym e) (rw h rest)
  | inr e ↦
      let rest = latest-none_newer best xs in
      let last : older (latest best xs).0 best.0 ≡ false = ground (arith, rest) in
      let h = older_trans x.0 best.0 (latest best xs).0 e last in
      let more : none_newer (latest best xs).0 xs ≡ true = ground (arith, rest) in
      subst (Best best x xs) (sym e) (rw (last, h, more))
]

latest-Of :
    (P : Version × String → Type 0) (best : Version × String) (xs : List (Version × String))
    → P best
    → Every P xs
    → P (latest best xs)
unfolding latest
latest-Of P best [] h hs = h
latest-Of P best (x ∷ xs) h hs =
    latest-Of P (if older best.0 x.0 then x else best) xs
      (elim (Bool-cases (older best.0 x.0)) [ inl e ↦ rw e hs.0 | inr e ↦ rw e h ]) hs.1

-- An entry is a tag of the list with its version.
abbrev IsTag : List String → Version × String → Type 0
IsTag tags x = (semver_tag x.1 ≡ some x.0) × (contains x.1 tags ≡ true)

stable_tags-none :
    (tag : String) (tags : List String)
    → semver_tag tag ≡ none
    → stable_tags (tag ∷ tags) ≡ stable_tags tags
unfolding stable_tags
stable_tags-none tag tags h =
    ap (λ o. elim o [ none ↦ stable_tags tags | some v ↦ (v, tag) ∷ stable_tags tags ]) h

stable_tags-some :
    (tag : String) (tags : List String) (v : Version)
    → semver_tag tag ≡ some v
    → stable_tags (tag ∷ tags) ≡ (v, tag) ∷ stable_tags tags
unfolding stable_tags
stable_tags-some tag tags v h =
    ap (λ o. elim o [ none ↦ stable_tags tags | some v ↦ (v, tag) ∷ stable_tags tags ]) h

stable_tags-IsTag : (tags : List String) → Every (IsTag tags) (stable_tags tags)
unfolding contains
stable_tags-IsTag [] = subst (Every (IsTag [])) (sym stable_tags-nil) tt
stable_tags-IsTag (tag ∷ tags) =
    let later =
      Every-imp (λ x h. (h.0, ground (arith, h))) (stable_tags tags) (stable_tags-IsTag tags) in
    elim (Option-cases (semver_tag tag)) [
      | inl e ↦ subst (Every (IsTag (tag ∷ tags))) (sym (stable_tags-none tag tags e)) later
      | inr (v, e) ↦
          subst (Every (IsTag (tag ∷ tags))) (sym (stable_tags-some tag tags v e))
            ((e, rw (eq_refl tag)), later)
    ]

fewer :
    (v : Version) (t : String) (tags : List String)
    → none_newer v (stable_tags (t ∷ tags)) ≡ true
    → none_newer v (stable_tags tags) ≡ true
unfolding none_newer
fewer v t tags n = elim (Option-cases (semver_tag t)) [
  | inl e ↦ subst (λ l. none_newer v l ≡ true) (stable_tags-none t tags e) n
  | inr (w, e) ↦
      let n' : none_newer v ((w, t) ∷ stable_tags tags) ≡ true =
        subst (λ l. none_newer v l ≡ true) (stable_tags-some t tags w e) n in
      ground (arith, n')
]

none_newer-tag :
    (v w : Version) (tag : String) (tags : List String)
    → none_newer v (stable_tags tags) ≡ true
    → contains tag tags ≡ true
    → semver_tag tag ≡ some w
    → older v w ≡ false
unfolding contains none_newer
none_newer-tag v w tag [] n c e = cc
none_newer-tag v w tag (t ∷ tags) n c e = elim (Bool-cases (t == tag)) [
  | inl same ↦
      let found = stable_tags-some t tags w (ap semver_tag ((eq_iff t tag).0 same) ∙ e) in
      let n' : none_newer v ((w, t) ∷ stable_tags tags) ≡ true =
        subst (λ l. none_newer v l ≡ true) found n in
      ground (arith, n')
  | inr other ↦
      let later : contains tag tags ≡ true = ground (arith, c, other) in
      none_newer-tag v w tag tags (fewer v t tags n) later e
]

tag_and_version-some :
    (l : List (Version × String)) (tag : String) (v : Version)
    → tag_and_version l ≡ some (tag, v)
    → (P : Version × String → Type 0) → Every P l
    → P (v, tag) × (none_newer v l ≡ true)
tag_and_version-some [] tag v h P every = cc
tag_and_version-some (x ∷ xs) tag v h P every =
    let same : latest x xs ≡ (v, tag) = cc in
    (
      subst P same (latest-Of P x xs every.0 every.1),
      subst (λ y. none_newer y.0 (x ∷ xs) ≡ true) same (latest-none_newer x xs),
    )

-- The tag that is found is one of the tags, it reads as the version that comes with it, and no tag
-- that reads as a version has a newer one.
pub latest_stable_tag-Newest :
    (raw_tags : List String) (tag : String) (v : Version)
    → latest_stable_tag raw_tags ≡ some (tag, v)
    → (contains tag raw_tags ≡ true)
      × (semver_tag tag ≡ some v)
      × ((t : String) (w : Version)
          → contains t raw_tags ≡ true
          → semver_tag t ≡ some w
          → older v w ≡ false)
unfolding latest_stable_tag
latest_stable_tag-Newest raw_tags tag v h =
    let ((read, found), newest) =
      tag_and_version-some (stable_tags raw_tags) tag v h (IsTag raw_tags)
        (stable_tags-IsTag raw_tags) in
    (found, read, λ t w c e. none_newer-tag v w t raw_tags newest c e)

-- A tag that reads as a version is found.
pub latest_stable_tag-Found :
    (raw_tags : List String) (t : String) (w : Version)
    → contains t raw_tags ≡ true
    → semver_tag t ≡ some w
    → latest_stable_tag raw_tags ≡ none
    → ⊥
unfolding latest_stable_tag contains
latest_stable_tag-Found [] t w c e h = cc
latest_stable_tag-Found (tag ∷ tags) t w c e h = elim (Option-cases (semver_tag tag)) [
  | inl f ↦
      let differs : tag == t ≡ false = elim (Bool-cases (tag == t)) [
        | inr o ↦ o
        | inl o ↦ absurd (let clash = ap semver_tag ((eq_iff tag t).0 o) in cc clash)
      ] in
      latest_stable_tag-Found tags t w (ground (arith, c, differs)) e
        (ap tag_and_version (sym (stable_tags-none tag tags f)) ∙ h)
  | inr (v, f) ↦
      let clash = ap tag_and_version (sym (stable_tags-some tag tags v f)) ∙ h in cc clash
]
