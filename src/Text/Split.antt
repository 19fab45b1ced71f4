-- ===== src/Text/Split.antt =====
-- `s.split(c)` and `sep.join(parts)` of Python, for the texts of scopes.
use Prim.Native.Char.{Char, code}
use h4ckrth0n.Prelude.{
  ◌≡◌, refl, ap, ◌∙◌, String, Bool, true, false, not, List, [], ◌∷◌, eqb, eqb_iff, arith, all,
  if◌then◌else◌,
}
use h4ckrth0n.Text.{append, all_chars}

-- The first part with one more character.
abbrev pub longer : Char → List String → List String
longer c [] = []
longer c (s ∷ parts) = String.◌∷◌ c s ∷ parts

unfoldable pub split : Char → String → List String
split c String.[] = "" ∷ []
split c (String.◌∷◌ x s) =
    let parts = split c s in if eqb (code x) (code c) then "" ∷ parts else longer x parts

abbrev cons : Char → String → String
cons c s = String.◌∷◌ c s

-- The parts with the character between them.
unfoldable pub join : Char → List String → String
join c [] = ""
join c (s ∷ []) = s
join c (s ∷ t ∷ parts) = append s (cons c (join c (t ∷ parts)))

-- A text without the character.
unfoldable pub lacks : Char → String → Bool
unfolding all_chars
lacks c s = all_chars (λ x. not (eqb (code x) (code c))) s

split-lacks : (c : Char) (s : String) → lacks c s ≡ true → split c s ≡ s ∷ []
unfolding split lacks all_chars
split-lacks c String.[] h = refl
split-lacks c (String.◌∷◌ x s) h =
    let rest = split-lacks c s (ground (arith, h)) in
    let different : eqb (code x) (code c) ≡ false = ground (arith, h) in rw (different, rest)

split-append :
    (c : Char) (s t : String) → lacks c s ≡ true → split c (append s (cons c t)) ≡ s ∷ split c t
unfolding split lacks all_chars append
split-append c String.[] t h = let same = (eqb_iff (code c) (code c)).1 refl in rw same
split-append c (String.◌∷◌ x s) t h =
    let rest = split-append c s t (ground (arith, h)) in
    let different : eqb (code x) (code c) ≡ false = ground (arith, h) in rw (different, rest)

-- Parts without the separator come back, if there is one at least.
pub split-join :
    (c : Char) (s : String) (parts : List String)
    → all (lacks c) (s ∷ parts) ≡ true
    → split c (join c (s ∷ parts)) ≡ s ∷ parts
unfolding join all
split-join c s [] h = split-lacks c s (ground (arith, h))
split-join c s (t ∷ parts) h =
    let rest = split-join c t parts (ground (arith, h)) in
    split-append c s (join c (t ∷ parts)) (ground (arith, h)) ∙ ap (λ l. s ∷ l) rest
