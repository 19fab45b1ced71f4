-- ===== src/Release/Bump/Targets.antt =====
-- scripts/bump_version.py: how the version is replaced in each of the files. A file of JSON, which
-- holds an object, is its value: what `json.loads` reads and `json.dumps` writes. Other files are
-- their text.
use Prim.Native.Char.{Char, code}
use h4ckrth0n.Prelude.{
  ℕ, zero, suc, ◌-◌, String, Bool, true, false, ◌||◌, Option, none, some, List, [], ◌∷◌, ◌==◌, eqb,
  if◌then◌else◌,
}
use h4ckrth0n.Json.{Json, str, obj, Fields, end, field, lookup}
use h4ckrth0n.Text.{append, take, length, lstrip, is_space}
use h4ckrth0n.Text.Lines.{concat}
use h4ckrth0n.Text.Pattern.{Pattern, strip_prefix, after, sub}
use h4ckrth0n.Release.Semver.{leading, ◌>>=◌}
use h4ckrth0n.Release.Bump.{replace_project_version}

pub data Document : Type 0 where
  text : String → Document
  json : Fields → Document

-- `data[key] = value`: a key that is there keeps its place.
unfoldable pub set_field : String → Json → Fields → Fields
set_field key value end = field key value end
set_field key value (field k v fields) =
    let rest = set_field key value fields in
    if k == key then field k value fields else field k v rest

abbrev pub is_str : Option Json → String → Bool
is_str (some (str s)) t = s == t
is_str _ t = false

-- The object with its version replaced, if it has the old one.
unfoldable pub with_version : String → String → Fields → Option Fields
unfolding set_field
with_version old new fields =
    if is_str (lookup "version" fields) old
    then some (set_field "version" (str new) fields)
    else none

-- The object with its version replaced in the object under a key, if that has the old one.
abbrev replaced_in : String → Fields → Option Fields → Option Fields
replaced_in key fields none = none
replaced_in key fields (some inner) = some (set_field key (obj inner) fields)

abbrev version_in : String → String → String → Fields → Option Json → Option Fields
version_in key old new fields (some (obj inner)) =
    replaced_in key fields (with_version old new inner)
version_in key old new fields _ = none

unfoldable pub update_package_json_version : String → String → Fields → Option Fields
unfolding with_version
update_package_json_version old new fields = with_version old new fields

abbrev or_else : Fields → Option Fields → Fields
or_else fields none = fields
or_else fields (some changed) = changed

abbrev packages_of : String → String → Fields → Option Json → Option Fields
packages_of old new fields (some (obj packages)) =
    replaced_in "packages" fields (version_in "" old new packages (lookup "" packages))
packages_of old new fields _ = none

abbrev first_of : Option Fields → Option Fields → Option Fields
first_of (some changed) before = some changed
first_of none before = before

-- The version of the document and that of its root package, each if it is the old one.
unfoldable pub update_package_lock_version : String → String → Fields → Option Fields
unfolding with_version
update_package_lock_version old new fields =
    let top = with_version old new fields in
    let fields' = or_else fields top in
    first_of (packages_of old new fields' (lookup "packages" fields')) top

unfoldable pub update_openapi_info_version : String → String → Fields → Option Fields
unfolding with_version
update_openapi_info_version old new fields = version_in "info" old new fields (lookup "info" fields)

abbrev pub if_changed : String → String → Option String
if_changed before changed = if changed == before then none else some changed

-- `("h4ckath0n>=)old(")` everywhere.
unfoldable pub update_template_dependency_floor : String → String → String → Option String
update_template_dependency_floor old new before =
    let quoted : String → String = λ version. concat ("\"h4ckath0n>=" ∷ version ∷ "\"" ∷ []) in
    let floor : Pattern = record {
      literal = quoted old;
      class = λ c. false;
      least = 0;
      dotted = false;
    } in
    if_changed before (sub floor (quoted new) before)

-- What follows `\s*__fallback_version__\s*=\s*"` at a place.
unfoldable pub fallback_value : String → Option String
fallback_value s = do
  rest ← strip_prefix "__fallback_version__" (lstrip s)
  value ← strip_prefix "=" (lstrip rest)
  strip_prefix "\"" (lstrip value)

-- What stands before the version and what follows its closing quote.
abbrev split_at : String → String → String → Option String → Option (String × String)
split_at s value old none = none
split_at s value old (some rest) = some (take (length s - length value) s, rest)

unfoldable pub fallback_match : String → String → Option (String × String)
fallback_match old s = do
  value ← fallback_value s
  rest ← strip_prefix old value
  split_at s value old (strip_prefix "\"" rest)

-- `re.sub` in multiline mode, with `skip` characters of the match before it still to be left out.
unfoldable pub sub_fallback : String → String → Bool → ℕ → String → String
sub_fallback old new at_start skip String.[] = ""
sub_fallback old new at_start (suc skip) (String.◌∷◌ c s) =
    sub_fallback old new (eqb (code c) 10) skip s
sub_fallback old new at_start zero (String.◌∷◌ c s) =
    elim (if at_start then fallback_match old (String.◌∷◌ c s) else none) [
      | none ↦ String.◌∷◌ c (sub_fallback old new (eqb (code c) 10) 0 s)
      | some (before, rest) ↦
          append (concat (before ∷ new ∷ "\"" ∷ []))
            (sub_fallback old new (eqb (code c) 10) (length s - length rest) s)
    ]

unfoldable pub replace_fallback_version : String → String → String → Option String
unfolding sub_fallback fallback_match fallback_value
replace_fallback_version old new before = if_changed before (sub_fallback old new true 0 before)

-- White space that ends with a newline, `\s*\n`.
abbrev ends_newline : String → Bool
ends_newline String.[] = false
ends_newline (String.◌∷◌ c String.[]) = eqb (code c) 10
ends_newline (String.◌∷◌ c (String.◌∷◌ d s)) = ends_newline (String.◌∷◌ d s)

unfoldable pub after_newline : String → Option String
after_newline s = if ends_newline (leading is_space s) then some (after is_space s) else none

-- What follows the opening quote of the version in the block of the package.
unfoldable pub lock_value : String → Option String
unfolding after_newline
lock_value s = do
  a ← strip_prefix "[[package]]" s
  b ← after_newline a
  c ← strip_prefix "name" b
  d ← strip_prefix "=" (lstrip c)
  e ← strip_prefix "\"h4ckath0n\"" (lstrip d)
  f ← after_newline e
  g ← strip_prefix "version" f
  h ← strip_prefix "=" (lstrip g)
  strip_prefix "\"" (lstrip h)

-- `source\s*=\s*\{\s*editable\s*=\s*"\."\s*\}` at a place: what follows it.
unfoldable pub source_here : String → Option String
source_here s = do
  a ← strip_prefix "source" s
  b ← strip_prefix "=" (lstrip a)
  c ← strip_prefix "{" (lstrip b)
  d ← strip_prefix "editable" (lstrip c)
  e ← strip_prefix "=" (lstrip d)
  f ← strip_prefix "\".\"" (lstrip e)
  strip_prefix "}" (lstrip f)

unfoldable pub has_newline : String → Bool
has_newline String.[] = false
has_newline (String.◌∷◌ c s) = eqb (code c) 10 || has_newline s

abbrev followed_by_newline : Option String → Bool
followed_by_newline none = false
followed_by_newline (some rest) = has_newline rest

unfoldable pub has_source : String → Bool
unfolding source_here has_newline
has_source String.[] = false
has_source (String.◌∷◌ c s) = followed_by_newline (source_here (String.◌∷◌ c s)) || has_source s

-- `.*?\n.*?source…\n`, where a dot matches newlines too: the source may be that of a later block.
unfoldable pub source_follows : String → Bool
unfolding has_source
source_follows String.[] = false
source_follows (String.◌∷◌ c s) = if eqb (code c) 10 then has_source s else source_follows s

abbrev lock_found : String → Option String → Option (String × String)
lock_found value none = none
lock_found value (some rest) = if source_follows rest then some (value, append "\"" rest) else none

-- The pattern at a place: the text from the old version on, and from its closing quote on.
unfoldable pub lock_here : String → String → Option (String × String)
unfolding lock_value source_follows
lock_here old s = do
  value ← lock_value s
  rest ← strip_prefix old value
  lock_found value (strip_prefix "\"" rest)

abbrev cons_some : Char → Option String → Option String
cons_some c none = none
cons_some c (some s) = some (String.◌∷◌ c s)

unfoldable pub replace_uv_lock_version : String → String → String → Option String
unfolding lock_here
replace_uv_lock_version old new String.[] = none
replace_uv_lock_version old new (String.◌∷◌ c s) = elim (lock_here old (String.◌∷◌ c s)) [
  | none ↦ cons_some c (replace_uv_lock_version old new s)
  | some (value, rest) ↦
      some
        (concat (take (length (String.◌∷◌ c s) - length value) (String.◌∷◌ c s) ∷ new ∷ rest ∷ []))
]

-- A file and how it is rewritten, with none where nothing in it is the old version.
pub record Target : Type 0 where
  pub path : String
  pub rewrite : Document → String → String → Option Document

abbrev as_text : Option String → Option Document
as_text none = none
as_text (some s) = some (text s)

abbrev as_json : Option Fields → Option Document
as_json none = none
as_json (some fields) = some (json fields)

-- A rewriting of texts; the files of these targets are texts.
abbrev on_text :
    (String → String → String → Option String) → Document → String → String → Option Document
on_text f (text before) old new = as_text (f old new before)
on_text f (json fields) old new = none

abbrev on_json :
    (String → String → Fields → Option Fields) → Document → String → String → Option Document
on_json f (json before) old new = as_json (f old new before)
on_json f (text before) old new = none

abbrev pub bump_targets : List Target
bump_targets =
    record {
      path = "pyproject.toml";
      rewrite = on_text (λ old new before. replace_project_version before old new);
    }
    ∷ record { path = "uv.lock"; rewrite = on_text replace_uv_lock_version }
    ∷ record { path = "src/h4ckath0n/version.py"; rewrite = on_text replace_fallback_version }
    ∷ record {
      path = "packages/create-h4ckath0n/package.json";
      rewrite = on_json update_package_json_version;
    }
    ∷ record {
      path = "packages/create-h4ckath0n/package-lock.json";
      rewrite = on_json update_package_lock_version;
    }
    ∷ record {
      path = "packages/create-h4ckath0n/templates/fullstack/api/pyproject.toml";
      rewrite = on_text update_template_dependency_floor;
    }
    ∷ record {
      path = "packages/create-h4ckath0n/templates/fullstack/api/openapi.json";
      rewrite = on_json update_openapi_info_version;
    }
    ∷ []
