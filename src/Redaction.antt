-- ===== src/Redaction.antt =====
-- src/h4ckath0n/obs/redaction.py: secrets are taken out of what traces carry. A dict is the list of
-- its items, and a compiled pattern that the caller passes is the function that its `sub` with the
-- mark is.
pub mod Secrets
pub mod Wrappers
use Prim.Native.Char.{Char, code}
use Prim.Native.String
use h4ckrth0n.Prelude.{
  String, Bool, true, false, ◌&&◌, ◌||◌, List, [], ◌∷◌, ◌++◌, map, leb, eqb, contains,
  if◌then◌else◌,
}
use h4ckrth0n.Text.{lower_char}
use h4ckrth0n.Text.Pattern.{Pattern, sub}

abbrev pub mark : String
mark = "[REDACTED]"

abbrev pub sensitive_headers : List String
sensitive_headers = "authorization" ∷ "x-api-key" ∷ "cookie" ∷ "set-cookie" ∷ []

-- `str.lower`, as far as a comparison with these names can tell: the Kelvin sign is the one
-- character beyond ASCII whose lower case is an ASCII letter.
unfoldable pub lower_name : String → String
unfolding lower_char
lower_name String.[] = String.[]
lower_name (String.◌∷◌ c s) =
    String.◌∷◌ (if eqb (code c) 0x212a then "k" else lower_char c) (lower_name s)

unfoldable pub is_sensitive : String → Bool
unfolding lower_name contains
is_sensitive k = contains (lower_name k) sensitive_headers

unfoldable pub redact_headers : List (String × String) → List (String × String)
redact_headers [] = []
redact_headers ((k, v) ∷ headers) = (k, if is_sensitive k then mark else v) ∷ redact_headers headers

unfoldable pub is_alnum : Char → Bool
is_alnum c =
    let n = code c in
    leb b'A' n && leb n b'Z' || leb b'a' n && leb n b'z' || leb b'0' n && leb n b'9'

unfoldable pub is_key_char : Char → Bool
unfolding is_alnum
is_key_char c = is_alnum c || eqb (code c) b'_'

unfoldable pub is_token_char : Char → Bool
unfolding is_key_char is_alnum
is_token_char c = is_key_char c || eqb (code c) b'-'

abbrev pub jwt_like : Pattern
jwt_like = record { literal = "eyJ"; class = is_token_char; least = 10; dotted = true }

abbrev pub openai_key : Pattern
openai_key = record { literal = "sk-"; class = is_alnum; least = 20; dotted = false }

abbrev pub langsmith_key : Pattern
langsmith_key = record { literal = "lsv2_"; class = is_key_char; least = 20; dotted = false }

abbrev pub secret_patterns : List Pattern
secret_patterns = jwt_like ∷ openai_key ∷ langsmith_key ∷ []

unfoldable pub apply_all : List (String → String) → String → String
apply_all [] value = value
apply_all (f ∷ fs) value = apply_all fs (f value)

unfoldable pub redact_value : String → String
unfolding apply_all
redact_value value = apply_all (map (λ p. sub p mark) secret_patterns) value

unfoldable pub make_redactor : List (String → String) → String → String
unfolding apply_all
make_redactor extra_patterns value =
    apply_all (map (λ p. sub p mark) secret_patterns ++ extra_patterns) value
