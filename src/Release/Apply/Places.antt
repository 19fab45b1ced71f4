-- ===== src/Release/Apply/Places.antt =====
-- Where the substitutions of the apply script find their match, and what they put there.
use Prim.Native.Char.{Char, code}
use h4ckrth0n.Prelude.{
  ◌≡◌, refl, sym, ap, subst, ◌∙◌, inl, inr, String, Bool, true, not, Option, none, some, [], ◌∷◌,
  Bool-cases, Option-cases, arith, eqb, eqb_iff, if◌then◌else◌,
}
use text.Mathlib.TextEquality.{Char-path}
use h4ckrth0n.Text.{append}
use h4ckrth0n.Text.Lines.{concat}
use h4ckrth0n.Text.Pattern.{strip_prefix, after}
use h4ckrth0n.Release.Semver.{leading, ◌>>=◌}
use h4ckrth0n.Release.Apply.{ends_quote, quoted_line, version_here, cons_some, sub_first, assigned}

append-empty : (s : String) → append s "" ≡ s
unfolding append
append-empty String.[] = refl
append-empty (String.◌∷◌ c s) = ap (λ t. String.◌∷◌ c t) (append-empty s)

append-append : (s t u : String) → append (append s t) u ≡ append s (append t u)
unfolding append
append-append String.[] t u = refl
append-append (String.◌∷◌ c s) t u = ap (λ v. String.◌∷◌ c v) (append-append s t u)

same_char : (c d : Char) → eqb (code c) (code d) ≡ true → c ≡ d
same_char c d h = Char-path c d ((eqb_iff (code c) (code d)).0 h)

strip_prefix-append : (w s rest : String) → strip_prefix w s ≡ some rest → s ≡ append w rest
unfolding strip_prefix append
strip_prefix-append String.[] s rest h = ground (arith, h)
strip_prefix-append (String.◌∷◌ x w) String.[] rest h = absurd cc
strip_prefix-append (String.◌∷◌ x w) (String.◌∷◌ c s) rest h =
    elim (Bool-cases (eqb (code x) (code c))) [
      | inl e ↦
          let h' : strip_prefix w s ≡ some rest = ground (arith, h, e) in
          ap (λ t. String.◌∷◌ c t) (strip_prefix-append w s rest h')
          ∙ ap (λ d. String.◌∷◌ d (append w rest)) (sym (same_char x c e))
      | inr e ↦ absurd (ground (arith, h, e))
    ]

leading-after : (p : Char → Bool) (s : String) → append (leading p s) (after p s) ≡ s
unfolding append leading after
leading-after p String.[] = refl
leading-after p (String.◌∷◌ c s) = elim (Bool-cases (p c)) [
  | inl e ↦ rw e (ap (λ t. String.◌∷◌ c t) (leading-after p s))
  | inr e ↦ rw e refl
]

before_quote : (s : String) → ends_quote s ≡ true → (x : String) × (s ≡ append x "\"")
unfolding ends_quote append
before_quote String.[] h = absurd cc
before_quote (String.◌∷◌ c String.[]) h = ("", ap (λ d. String.◌∷◌ d "") (same_char c "\"" h))
before_quote (String.◌∷◌ c (String.◌∷◌ d s)) h =
    let (x, e) = before_quote (String.◌∷◌ d s) h in (String.◌∷◌ c x, ap (λ t. String.◌∷◌ c t) e)

quoted_line-split :
    (s rest : String) → quoted_line s ≡ some rest → (x : String) × (s ≡ append x (append "\"" rest))
unfolding quoted_line
quoted_line-split s rest h =
    let in_line : Char → Bool = λ c. not (eqb (code c) 10) in
    elim (Bool-cases (ends_quote (leading in_line s))) [
      | inl e ↦
          let (x, line) = before_quote (leading in_line s) e in
          let left : after in_line s ≡ rest = ground (arith, h, e) in
          (
            x,
            sym (leading-after in_line s)
                ∙ ap (λ l. append l (after in_line s)) line
                ∙ append-append x "\"" (after in_line s)
                ∙ ap (λ r. append x (append "\"" r)) left,
          )
      | inr e ↦ absurd (ground (arith, h, e))
    ]

-- The place of the match, with what stands before and after it.
abbrev pub Found : (String → Option String) → String → String → String → Type 0
Found here new content updated =
    (before : String) × (matched : String) × (rest : String) × (content ≡ append before matched)
    × (here matched ≡ some rest)
    × (updated ≡ append before (append new rest))

Found-cons :
    (here : String → Option String) (new s t : String) (c : Char)
    → Found here new s t
    → Found here new (String.◌∷◌ c s) (String.◌∷◌ c t)
unfolding append
Found-cons here new s t c (before, matched, rest, e, h, u) =
    (String.◌∷◌ c before, matched, rest, ap (λ v. String.◌∷◌ c v) e, h, ap (λ v. String.◌∷◌ c v) u)

module _ (here : String → Option String) (new : String) where
  cons_some-Found :
      (c : Char) (s updated : String) (o : Option String)
      → ((t : String) → o ≡ some t → Found here new s t)
      → cons_some c o ≡ some updated
      → Found here new (String.◌∷◌ c s) updated
  cons_some-Found c s updated none k h = absurd cc
  cons_some-Found c s updated (some t) k h =
      subst (Found here new (String.◌∷◌ c s)) (some_same h) (Found-cons here new s t c (k t refl))
    where
      some_same : {a b : String} → some a ≡ some b → a ≡ b
      some_same h = cc

  tried : (c : Char) (s : String) (o : Option String) → Option String
  tried c s none = cons_some c (sub_first here new (eqb (code c) 10) s)
  tried c s (some rest) = some (append new rest)

  pub sub_first-Found :
      (at_start : Bool) (s updated : String)
      → sub_first here new at_start s ≡ some updated
      → Found here new s updated
  unfolding sub_first append tried
  sub_first-Found at_start String.[] updated h = absurd cc
  sub_first-Found at_start (String.◌∷◌ c s) updated h =
      elim (Option-cases (if at_start then here (String.◌∷◌ c s) else none)) [
        | inl e ↦
            cons_some-Found c s updated (sub_first here new (eqb (code c) 10) s)
              (λ t. sub_first-Found (eqb (code c) 10) s t) (sym (ap (tried c s) e) ∙ h)
        | inr (rest, e) ↦ (
          "",
          String.◌∷◌ c s,
          rest,
          refl,
          ground (arith, e),
          ground (arith, sym (ap (tried c s) e) ∙ h),
        )
      ]

-- The rewriting of pyproject.toml: a text between quotes is replaced, and nothing else.
pub version_replaced :
    (version content updated : String)
    → sub_first version_here (assigned version) true content ≡ some updated
    → (before : String) × (was : String) × (rest : String) × (content
        ≡ concat (before ∷ "version = \"" ∷ was ∷ "\"" ∷ rest ∷ []))
      × (updated ≡ concat (before ∷ "version = \"" ∷ version ∷ "\"" ∷ rest ∷ []))
unfolding concat version_here append
version_replaced version content updated h =
    let (before, matched, rest, e, here, u) =
      sub_first-Found version_here (assigned version) true content updated h in
    let then_line : Option String → Option String = λ o. o >>= quoted_line in
    elim (Option-cases (strip_prefix "version = \"" matched)) [
      | inl missed ↦ absurd (none_here (sym (ap then_line missed) ∙ here))
      | inr (a, found) ↦
          let (was, split) = quoted_line-split a rest (sym (ap then_line found) ∙ here) in
          let tail : append "\"" rest ≡ append "\"" (append rest "") =
            ap (λ t. append "\"" t) (sym (append-empty rest)) in
          (
            before,
            was,
            rest,
            e
                ∙ ap (λ m. append before m) (strip_prefix-append "version = \"" matched a found)
                ∙ ap (λ t. append before (append "version = \"" t))
                    (split ∙ ap (λ t. append was t) tail),
            u
                ∙ ap (λ t. append before (append "version = \"" t))
                    (append-append version "\"" rest ∙ ap (λ t. append version t) tail),
          )
    ]
  where
    none_here : {rest : String} → none ≡ some rest → ⊥
    none_here h = cc
