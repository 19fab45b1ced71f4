-- ===== src/Cli/Scopes.antt =====
-- The lists of scopes of src/h4ckath0n/cli.py.
pub mod Names
use Prim.Native.Char.{Char}
use h4ckrth0n.Prelude.{
  String, Bool, not, List, [], ◌∷◌, ◌++◌, map, ◌==◌, select, contains, if◌then◌else◌,
}
use h4ckrth0n.Text.{strip}
use h4ckrth0n.Text.Split.{split, join}

abbrev separator : Char
separator = ","

abbrev pub is_filled : String → Bool
is_filled s = not (s == "")

-- The loop with `seen`: a text that was seen is skipped.
unfoldable pub dedupe : List String → List String → List String
unfolding contains
dedupe seen [] = []
dedupe seen (s ∷ parts) =
    let skip = dedupe seen parts in
    let keep = dedupe (s ∷ seen) parts in if contains s seen then skip else s ∷ keep

-- The parts that are kept, in order.
unfoldable pub scope_parts : String → List String
unfolding strip split select dedupe
scope_parts raw = dedupe [] (select is_filled (map strip (split separator raw)))

unfoldable pub normalize_scopes : String → String
unfolding scope_parts join
normalize_scopes raw = join separator (scope_parts raw)

-- `[s for s in user.scopes.split(",") if s.strip()]`
unfoldable pub existing : String → List String
unfolding strip split select
existing scopes = select (λ s. is_filled (strip s)) (split separator scopes)

-- The set of the existing scopes and the new ones, in the order in which it is read.
unfoldable pub with_scopes : (List String → List String) → List String → String → String
unfolding normalize_scopes existing
with_scopes order scope scopes =
    normalize_scopes (join separator (order (dedupe [] (existing scopes ++ map strip scope))))

unfoldable pub without_scopes : List String → String → String
unfolding normalize_scopes existing contains
without_scopes scope scopes =
    normalize_scopes
      (join separator (select (λ s. not (contains s (map strip scope))) (existing scopes)))
