-- ===== src/Text.antt =====
-- Python's operations on texts that the program uses, by walks over the characters, and the
-- encodings of its `base64` module.
pub mod Base64
pub mod Base32
pub mod Split
pub mod Strip
pub mod Pattern
pub mod Decimal
pub mod Lines
use Prim.Native.Char.{Char, code, nul}
use Prim.Native.String
use h4ckrth0n.Prelude.{
  ℕ, zero, suc, String, Bool, true, false, ◌&&◌, ◌||◌, ◌-◌, ◌==◌, leb, eqb, if◌then◌else◌,
}

-- `len(s)`, in characters
abbrev pub length : String → ℕ
length String.[] = 0
length (String.◌∷◌ c s) = suc (length s)

-- `s + t`
unfoldable pub append : String → String → String
append String.[] t = t
append (String.◌∷◌ c s) t = String.◌∷◌ c (append s t)

-- The character at a position; a position past the end has the null character.
unfoldable pub nth : String → ℕ → Char
nth String.[] i = nul
nth (String.◌∷◌ c s) zero = c
nth (String.◌∷◌ c s) (suc i) = nth s i

-- `all(p(c) for c in s)` and `any(…)`
unfoldable pub all_chars : (Char → Bool) → String → Bool
all_chars p String.[] = true
all_chars p (String.◌∷◌ c s) = p c && all_chars p s

unfoldable pub any_char : (Char → Bool) → String → Bool
any_char p String.[] = false
any_char p (String.◌∷◌ c s) = p c || any_char p s

-- `s[1:]`
unfoldable pub tail : String → String
tail String.[] = String.[]
tail (String.◌∷◌ c s) = s

abbrev lower_letters : String
lower_letters = "abcdefghijklmnopqrstuvwxyz"

-- `s.lower()` on ASCII letters; others stay.
unfoldable pub lower_char : Char → Char
unfolding nth
lower_char c =
    if leb b'A' (code c) && leb (code c) b'Z' then nth lower_letters (code c - b'A') else c

unfoldable pub lower : String → String
unfolding lower_char
lower String.[] = String.[]
lower (String.◌∷◌ c s) = String.◌∷◌ (lower_char c) (lower s)

-- `c.isspace()`, as `strip` uses it
unfoldable pub is_space : Char → Bool
is_space c =
    let n = code c in
    leb 9 n && leb n 13
    || leb 28 n && leb n 32
    || eqb n 0x85
    || eqb n 0xa0
    || eqb n 0x1680
    || leb 0x2000 n && leb n 0x200a
    || eqb n 0x2028
    || eqb n 0x2029
    || eqb n 0x202f
    || eqb n 0x205f
    || eqb n 0x3000

unfoldable pub lstrip : String → String
lstrip String.[] = String.[]
lstrip (String.◌∷◌ c s) = if is_space c then lstrip s else String.◌∷◌ c s

-- Without the white space at the end: a character stays if it or a later one is none.
unfoldable pub rstrip : String → String
rstrip String.[] = String.[]
rstrip (String.◌∷◌ c s) =
    let rest = rstrip s in if rest == "" && is_space c then String.[] else String.◌∷◌ c rest

unfoldable pub strip : String → String
unfolding lstrip rstrip is_space
strip s = rstrip (lstrip s)

-- `s[:n]`
unfoldable pub take : ℕ → String → String
take zero s = ""
take (suc n) String.[] = ""
take (suc n) (String.◌∷◌ c s) = String.◌∷◌ c (take n s)
