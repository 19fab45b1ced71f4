-- ===== src/Json/Dumps.antt =====
-- `json.dumps` with `separators=(",", ":")` and `sort_keys=True`, as the fingerprint of a key uses
-- it, and `bytes.hex`.
use Prim.Native.Char.{Char, code}
use h4ckrth0n.Prelude.{
  ℕ, ◌/◌, ◌%◌, ◌-◌, ◌+◌, String, Bool, true, false, ◌&&◌, List, [], ◌∷◌, eqb, ltb, leb,
  if◌then◌else◌,
}
use h4ckrth0n.Json.{Json, Items, Fields, null, bool, num, str, arr, obj, nil, cons, end, field}
use h4ckrth0n.Text.{append, nth}

abbrev hex_digits : String
hex_digits = "0123456789abcdef"

abbrev put : Char → String → String
put c s = String.◌∷◌ c s

unfoldable hex_digit : ℕ → Char
unfolding nth
hex_digit n = nth hex_digits (n % 16)

-- `bytes.hex()`
unfoldable pub hex : List ℕ → String
unfolding hex_digit
hex [] = ""
hex (b ∷ bs) = put (hex_digit (b / 16)) (put (hex_digit b) (hex bs))

-- `\uXXXX`, before the rest of the text
unfoldable unicode : ℕ → String → String
unfolding append hex_digit
unicode n rest = append "\\u" (
    put (hex_digit (n / 4096))
      (put (hex_digit (n / 256)) (put (hex_digit (n / 16)) (put (hex_digit n) rest))))

-- A character as `ensure_ascii` writes it.
unfoldable escaped : Char → String → String
unfolding append unicode
escaped c rest =
    let n = code c in
    if eqb n b'"'
    then append "\\\"" rest
    else if eqb n b'\\'
    then append "\\\\" rest
    else if eqb n 8
    then append "\\b" rest
    else if eqb n 9
    then append "\\t" rest
    else if eqb n 10
    then append "\\n" rest
    else if eqb n 12
    then append "\\f" rest
    else if eqb n 13
    then append "\\r" rest
    else if leb 32 n && leb n 126
    then put c rest
    else if ltb n 0x10000
    then unicode n rest
    else unicode (0xd800 + (n - 0x10000) / 1024) (unicode (0xdc00 + (n - 0x10000) % 1024) rest)

unfoldable escapes : String → String → String
unfolding escaped
escapes String.[] rest = append "\"" rest
escapes (String.◌∷◌ c s) rest = escaped c (escapes s rest)

unfoldable quoted : String → String → String
unfolding escapes append
quoted s rest = append "\"" (escapes s rest)

-- Python's order of texts, by code points.
unfoldable text_leb : String → String → Bool
text_leb String.[] t = true
text_leb (String.◌∷◌ c s) String.[] = false
text_leb (String.◌∷◌ c s) (String.◌∷◌ d t) =
    let rest = text_leb s t in
    if ltb (code c) (code d) then true else if eqb (code c) (code d) then rest else false

unfoldable insert_key : String → Json → Fields → Fields
unfolding text_leb
insert_key k v end = field k v end
insert_key k v (field j w fs) =
    let rest = insert_key k v fs in
    if text_leb k j then field k v (field j w fs) else field j w rest

unfoldable sorted : Fields → Fields
unfolding insert_key
sorted end = end
sorted (field k v fs) = insert_key k v (sorted fs)

unfoldable mutual
  unfolding sorted

  -- All keys sorted.
  pub canonical : Json → Json
  canonical null = null
  canonical (bool b) = bool b
  canonical (num n) = num n
  canonical (str s) = str s
  canonical (arr xs) = arr (canonical_items xs)
  canonical (obj fs) = obj (sorted (canonical_fields fs))

  pub canonical_items : Items → Items
  canonical_items nil = nil
  canonical_items (cons x xs) = cons (canonical x) (canonical_items xs)

  pub canonical_fields : Fields → Fields
  canonical_fields end = end
  canonical_fields (field k v fs) = field k (canonical v) (canonical_fields fs)

unfoldable mutual
  unfolding quoted append

  -- The text of a value, before a rest; the Boolean tells whether a comma goes first.
  pub written : Json → String → String
  written null rest = append "null" rest
  written (bool true) rest = append "true" rest
  written (bool false) rest = append "false" rest
  written (num n) rest = append n rest
  written (str s) rest = quoted s rest
  written (arr xs) rest = append "[" (written_items false xs (append "]" rest))
  written (obj fs) rest = append "{" (written_fields false fs (append "}" rest))

  pub written_items : Bool → Items → String → String
  written_items comma nil rest = rest
  written_items comma (cons x xs) rest =
      append (if comma then "," else "") (written x (written_items true xs rest))

  pub written_fields : Bool → Fields → String → String
  written_fields comma end rest = rest
  written_fields comma (field k v fs) rest =
      append (if comma then "," else "")
        (quoted k (append ":" (written v (written_fields true fs rest))))

-- `json.dumps(…)`
unfoldable pub dumps : Json → String
unfolding written canonical
dumps v = written (canonical v) ""
