-- ===== src/Text/Pattern.antt =====
-- Python's `re`, for the patterns that the program has: a literal, then a run of one class of
-- characters, and for some a dot and one more run. The class never has the dot, so a run that is as
-- long as it can be is the only one that the engine accepts. Children: what a substitution leaves.
pub mod Agreement
pub mod Substitution
use Prim.Native.Char.{Char, code}
use Prim.Native.String
use h4ckrth0n.Prelude.{
  ℕ, zero, suc, ◌+◌, ◌-◌, String, Bool, true, false, ◌||◌, Option, none, some, ltb, eqb,
  if◌then◌else◌,
}
use h4ckrth0n.Text.{length, append}

pub record Pattern : Type 0 where
  pub literal : String
  pub class : Char → Bool
  pub least : ℕ
  pub dotted : Bool

-- What follows a literal at the start of a text.
unfoldable pub strip_prefix : String → String → Option String
strip_prefix String.[] s = some s
strip_prefix (String.◌∷◌ x w) String.[] = none
strip_prefix (String.◌∷◌ x w) (String.◌∷◌ c s) =
    let rest = strip_prefix w s in if eqb (code x) (code c) then rest else none

-- The longest run of a class at the start of a text, and what follows it.
unfoldable pub run : (Char → Bool) → String → ℕ
run class String.[] = 0
run class (String.◌∷◌ c s) = let rest = run class s in if class c then suc rest else 0

unfoldable pub after : (Char → Bool) → String → String
after class String.[] = String.[]
after class (String.◌∷◌ c s) = let rest = after class s in if class c then rest else String.◌∷◌ c s

-- A dot and a run of one character or more; `lead` counts what stands before.
unfoldable pub dot_run : (Char → Bool) → ℕ → String → Option ℕ
dot_run class lead String.[] = none
dot_run class lead (String.◌∷◌ c s) =
    if eqb (code c) b'.'
    then (if ltb (run class s) 1 then none else some (lead + 1 + run class s))
    else none

unfoldable pub match_rest : Pattern → String → Option ℕ
unfolding dot_run
match_rest p s =
    let lead = length p.literal + run p.class s in
    if ltb (run p.class s) p.least
    then none
    else if p.dotted
    then dot_run p.class lead (after p.class s)
    else some lead

-- `pattern.match`: how many characters at the start of the text it takes.
unfoldable pub match_length : Pattern → String → Option ℕ
unfolding match_rest
match_length p s = elim (strip_prefix p.literal s) [ none ↦ none | some rest ↦ match_rest p rest ]

abbrev pub is_match : Option ℕ → Bool
is_match none = false
is_match (some n) = true

-- `pattern.search`: whether it matches anywhere.
unfoldable pub search : Pattern → String → Bool
search p String.[] = is_match (match_length p String.[])
search p (String.◌∷◌ c s) = is_match (match_length p (String.◌∷◌ c s)) || search p s

-- `pattern.sub`, with `skip` characters of the match before it still to be left out. No pattern
-- here matches the empty text.
unfoldable pub sub_from : Pattern → String → ℕ → String → String
sub_from p mark skip String.[] = String.[]
sub_from p mark (suc skip) (String.◌∷◌ c s) = sub_from p mark skip s
sub_from p mark zero (String.◌∷◌ c s) = elim (match_length p (String.◌∷◌ c s)) [
  | none ↦ String.◌∷◌ c (sub_from p mark 0 s)
  | some n ↦ append mark (sub_from p mark (n - 1) s)
]

unfoldable pub sub : Pattern → String → String → String
unfolding sub_from
sub p mark s = sub_from p mark 0 s
