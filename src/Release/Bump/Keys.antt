-- ===== src/Release/Bump/Keys.antt =====
-- What `data[key] = value` leaves in a JSON object.
use h4ckrth0n.Prelude.{◌≡◌, ◌≢◌, String, Option, some, arith, eq_iff, eq_refl}
use h4ckrth0n.Json.{Json, str, Fields, end, field, lookup}
use h4ckrth0n.Release.Bump.Targets.{Document, json, set_field}

pub lookup-set_field :
    (key : String) (v : Json) (fields : Fields) → lookup key (set_field key v fields) ≡ some v
unfolding lookup set_field
lookup-set_field key v end = ground (arith, eq_refl key)
lookup-set_field key v (field k u fields) =
    ground (arith, lookup-set_field key v fields, eq_refl key)

pub lookup-set_field_other :
    (key other : String) (v : Json) (fields : Fields)
    → other ≢ key
    → lookup other (set_field key v fields) ≡ lookup other fields
unfolding lookup set_field
lookup-set_field_other key other v end ne = ground (arith, eq_iff key other)
lookup-set_field_other key other v (field k u fields) ne = ground (
  arith,
  eq_iff key other,
  eq_iff k key,
  eq_iff k other,
  lookup-set_field_other key other v fields ne,
)

-- A JSON object whose version is set, with every other key as it was.
abbrev pub VersionKey : String → Option Document → Option Document → Type 0
VersionKey version was now =
    (fields : Fields) × (fields' : Fields) × (was ≡ some (json fields))
    × (now ≡ some (json fields'))
    × (lookup "version" fields' ≡ some (str version))
    × ((key : String) → key ≢ "version" → lookup key fields' ≡ lookup key fields)
