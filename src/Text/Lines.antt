-- ===== src/Text/Lines.antt =====
-- Python's `str.splitlines`, with and without the line ends.
use Prim.Native.Char.{Char, code}
use h4ckrth0n.Prelude.{
  ◌≡◌, refl, ap, ◌∙◌, inl, inr, String, Bool, false, not, ◌&&◌, ◌||◌, List, [], ◌∷◌, map, leb, eqb,
  Bool-cases, if◌then◌else◌,
}
use h4ckrth0n.Text.{append}

unfoldable pub is_break : Char → Bool
is_break c =
    let n = code c in
    leb 10 n && leb n 13 || leb 28 n && leb n 30 || eqb n 0x85 || eqb n 0x2028 || eqb n 0x2029

unfoldable pub starts_newline : String → Bool
starts_newline String.[] = false
starts_newline (String.◌∷◌ c s) = eqb (code c) 10

abbrev pub join_line : Char → List String → List String
join_line c [] = String.◌∷◌ c "" ∷ []
join_line c (line ∷ lines) = String.◌∷◌ c line ∷ lines

-- `splitlines(keepends=True)`: a carriage return before a newline ends no line of its own.
unfoldable pub lines_kept : String → List String
unfolding is_break starts_newline
lines_kept String.[] = []
lines_kept (String.◌∷◌ c s) =
    let rest = lines_kept s in
    if is_break c && not (eqb (code c) 13 && starts_newline s)
    then String.◌∷◌ c "" ∷ rest
    else join_line c rest

-- A line without its end.
unfoldable pub chomp : String → String
unfolding is_break
chomp String.[] = ""
chomp (String.◌∷◌ c s) = let rest = chomp s in if is_break c then "" else String.◌∷◌ c rest

unfoldable pub splitlines : String → List String
unfolding lines_kept chomp
splitlines s = map chomp (lines_kept s)

-- `"".join(lines)`
unfoldable pub concat : List String → String
concat [] = ""
concat (s ∷ l) = append s (concat l)

concat-join_line : (c : Char) (l : List String) → concat (join_line c l) ≡ String.◌∷◌ c (concat l)
unfolding concat append
concat-join_line c [] = refl
concat-join_line c (s ∷ l) = refl

-- The lines with their ends are the text.
pub concat-lines_kept : (s : String) → concat (lines_kept s) ≡ s
unfolding concat append lines_kept
concat-lines_kept String.[] = refl
concat-lines_kept (String.◌∷◌ c s) =
    let rest = ap (String.◌∷◌ c) (concat-lines_kept s) in
    elim (Bool-cases (is_break c && not (eqb (code c) 13 && starts_newline s))) [
      | inl e ↦ rw e rest
      | inr e ↦ rw e (concat-join_line c (lines_kept s) ∙ rest)
    ]
