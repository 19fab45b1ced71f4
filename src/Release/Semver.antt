-- ===== src/Release/Semver.antt =====
-- scripts/compute_versions.py and scripts/bump_version.py: versions of three numbers, as texts and as
-- tuples, and the latest stable tag.
pub mod Reading
pub mod Latest
use Prim.Native.Char.{Char, code}
use Prim.Native.String
use h4ckrth0n.Prelude.{
  ℕ, ◌+◌, String, Bool, true, false, ◌&&◌, ◌||◌, Option, none, some, List, [], ◌∷◌, leb, ltb, eqb,
  if◌then◌else◌, ◌==◌,
}
use h4ckrth0n.Result.{Result, ok, err, value_error}
use h4ckrth0n.Text.{append}
use h4ckrth0n.Text.Pattern.{after}
use h4ckrth0n.Text.Decimal.{is_digit, int, decimal}

pub record Version : Type 0 where
  pub major : ℕ
  pub minor : ℕ
  pub patch : ℕ

infixl 5 ◌>>=◌
abbrev pub ◌>>=◌ {ℓ κ} : {A : Type ℓ} {B : Type κ} → Option A → (A → Option B) → Option B
none >>= f = none
some a >>= f = f a

unfoldable pub leading : (Char → Bool) → String → String
leading class String.[] = ""
leading class (String.◌∷◌ c s) =
    let rest = leading class s in if class c then String.◌∷◌ c rest else ""

-- `(0|[1-9]\d*)` at the start of a text: the group and what follows it. A digit never starts what
-- has to follow, so the longest run is the only one that can match.
unfoldable pub number : String → Option (String × String)
number String.[] = none
number (String.◌∷◌ c s) =
    if eqb (code c) b'0'
    then some ("0", s)
    else if leb b'1' (code c) && leb (code c) b'9'
    then some (String.◌∷◌ c (leading is_digit s), after is_digit s)
    else none

unfoldable pub dot : String → Option String
dot String.[] = none
dot (String.◌∷◌ c s) = if eqb (code c) b'.' then some s else none

-- `$` matches at the end, and before a newline that ends the text.
unfoldable pub is_end : String → Bool
is_end s = s == "" || s == "\n"

unfoldable pub last_part : String → String → String × String → Option Version
last_part a b (c, s) =
    if is_end s then some (record { major = int a; minor = int b; patch = int c }) else none

-- `SEMVER_RE.match` and the numbers of its groups.
unfoldable pub semver : String → Option Version
semver s = do
  (a, s1) ← number s
  s2 ← dot s1
  (b, s3) ← number s2
  s4 ← dot s3
  part ← number s4
  last_part a b part

-- `SEMVER_TAG.match`
unfoldable pub semver_tag : String → Option Version
semver_tag String.[] = none
semver_tag (String.◌∷◌ c s) = if eqb (code c) b'v' then semver s else none

unfoldable pub starts_v : String → Bool
starts_v String.[] = false
starts_v (String.◌∷◌ c s) = eqb (code c) b'v'

unfoldable pub parse_version : String → Result Version
parse_version version =
    elim (semver_tag (if starts_v version then version else append "v" version)) [
      | none ↦ err (value_error (append "Invalid version: " version))
      | some v ↦ ok v
    ]

unfoldable pub format_version : Version → String
format_version v =
    append (decimal v.major) (append "." (append (decimal v.minor) (append "." (decimal v.patch))))

-- `v < w` of the tuples.
unfoldable pub older : Version → Version → Bool
older v w =
    if eqb v.major w.major
    then (if eqb v.minor w.minor then ltb v.patch w.patch else ltb v.minor w.minor)
    else ltb v.major w.major

unfoldable pub stable_tags : List String → List (Version × String)
stable_tags [] = []
stable_tags (tag ∷ tags) =
    let rest = stable_tags tags in elim (semver_tag tag) [ none ↦ rest | some v ↦ (v, tag) ∷ rest ]

-- `max` by the version, which keeps the first of several greatest.
unfoldable pub latest : Version × String → List (Version × String) → Version × String
latest best [] = best
latest best (x ∷ xs) = latest (if older best.0 x.0 then x else best) xs

abbrev tag_and_version : List (Version × String) → Option (String × Version)
tag_and_version [] = none
tag_and_version (x ∷ xs) = let best = latest x xs in some (best.1, best.0)

-- `raw_tags` are the lines of `git tag`.
unfoldable pub latest_stable_tag : List String → Option (String × Version)
latest_stable_tag raw_tags = tag_and_version (stable_tags raw_tags)
