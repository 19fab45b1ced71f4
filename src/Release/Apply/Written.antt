-- ===== src/Release/Apply/Written.antt =====
-- What a run of the apply script that returns has written, described by the contents of the files.
use h4ckrth0n.Prelude.{◌≡◌, refl, String, Option, some, [], ◌∷◌, eq_refl}
use h4ckrth0n.Result.{Result, ok}
use h4ckrth0n.Text.Lines.{concat}
use h4ckrth0n.Release.Bump.Targets.{Document, text}
use h4ckrth0n.Release.Bump.Main.{Files, write_text}
use h4ckrth0n.Release.Apply.{Run}

-- A text in which the value of a line `version = "…"` was replaced, and nothing else.
abbrev pub VersionLine : String → Option Document → Option Document → Type 0
VersionLine version was now =
    (before : String) × (old : String) × (rest : String) × (was
      ≡ some (text (concat (before ∷ "version = \"" ∷ old ∷ "\"" ∷ rest ∷ []))))
    × (now ≡ some (text (concat (before ∷ "version = \"" ∷ version ∷ "\"" ∷ rest ∷ []))))

module _ (P : Option Document → Option Document → Type 0) (p : String) where
  -- A run that returns has changed a path as is asked.
  abbrev Changes : Option Document → Run → Type 0
  Changes was r = r.1 ≡ ok tt → P was (r.0 p)

written : (path : String) (d : Document) (files : Files) → write_text path d files path ≡ some d
unfolding write_text
written path d files = rw (eq_refl path) refl
