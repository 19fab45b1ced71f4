-- ===== src/Text/Pattern/Agreement.antt =====
-- Two texts that are the same up to an opening bracket in the first: a pattern without the bracket
-- that matches the first matches the second.
use Prim.Native.Char.{Char, code}
use h4ckrth0n.Prelude.{
  ℕ, suc, ◌≡◌, ◌≤◌, refl, ap, sym, subst, String, Bool, true, false, Option, none, some, ltb, eqb,
  arith, Bool-cases, Option-cases, inl, inr, ◌+◌,
}
use h4ckrth0n.Text.{length, all_chars}
use h4ckrth0n.Text.Split.{lacks}
use h4ckrth0n.Text.Pattern.{
  Pattern, strip_prefix, run, after, dot_run, match_rest, match_length, is_match,
}

pub data Agrees : String → String → Type 0 where
  ends : (s : String) → Agrees String.[] s
  bracket : (c : Char) (r s : String) → code c ≡ b'[' → Agrees (String.◌∷◌ c r) s
  same : (c : Char) {r s : String} → Agrees r s → Agrees (String.◌∷◌ c r) (String.◌∷◌ c s)

pub Agrees-refl : (s : String) → Agrees s s
Agrees-refl String.[] = ends String.[]
Agrees-refl (String.◌∷◌ c s) = same c (Agrees-refl s)

-- What is left behind a literal agrees again.
strip_prefix-Agrees :
    (w : String) {r s : String} {rest : String}
    → lacks "[" w ≡ true
    → Agrees r s
    → strip_prefix w r ≡ some rest
    → (t : String) × (strip_prefix w s ≡ some t) × Agrees rest t
unfolding strip_prefix lacks all_chars
strip_prefix-Agrees String.[] {s = s} l a e =
    (s, refl, subst (λ x. Agrees x s) (let same : _ ≡ _ = ground (arith, e) in same) a)
strip_prefix-Agrees (String.◌∷◌ x w) l (ends s) e = absurd (ground (arith, e))
strip_prefix-Agrees (String.◌∷◌ x w) l (bracket c r s b) e = absurd (ground (arith, e, l, b))
strip_prefix-Agrees (String.◌∷◌ x w) {rest = rest} l (same c {r = r} {s = s} a) e =
    let l' : lacks "[" w ≡ true = ground (arith, l) in
    elim (Bool-cases (eqb (code x) (code c))) [
      | inl q ↦
          let tail : strip_prefix w r ≡ some rest = rw q at e in
          rw q (strip_prefix-Agrees w l' a tail)
      | inr q ↦ absurd (ground (arith, e, q))
    ]

starts_dot : String → Bool
starts_dot String.[] = false
starts_dot (String.◌∷◌ c s) = eqb (code c) b'.'

abbrev pub Barred : (Char → Bool) → Type 0
Barred class = (c : Char) → code c ≡ b'[' → class c ≡ false

run-Agrees :
    {class : Char → Bool} → Barred class → {r s : String} → Agrees r s → run class r ≤ run class s
unfolding run
run-Agrees bar (ends s) = omega arith
run-Agrees {class = class} bar (bracket c r s b) = rw (bar c b) (omega arith)
run-Agrees {class = class} bar (same c {r = r} {s = s} a) =
    let rest = run-Agrees bar a in ground (arith, rest)

-- Before a dot the runs are the same, and what follows them agrees.
after-Agrees :
    {class : Char → Bool}
    → Barred class
    → {r s : String} → Agrees r s
    → starts_dot (after class r) ≡ true
    → (run class r ≡ run class s) × Agrees (after class r) (after class s)
unfolding run after starts_dot
after-Agrees bar (ends s) d = absurd (ground (arith, d))
after-Agrees {class = class} bar (bracket c r s b) d =
    let d' : eqb (code c) b'.' ≡ true = rw (bar c b) at d in absurd (ground (arith, d', b))
after-Agrees {class = class} bar (same c {r = r} {s = s} a) d = elim (Bool-cases (class c)) [
  | inl q ↦
      let d' : starts_dot (after class r) ≡ true = rw q at d in
      let (n, rest) = after-Agrees bar a d' in rw q (ap suc n, rest)
  | inr q ↦ rw q (refl, same c a)
]

dot_run-starts :
    (class : Char → Bool) (lead : ℕ) (s : String)
    → is_match (dot_run class lead s) ≡ true
    → starts_dot s ≡ true
unfolding dot_run starts_dot
dot_run-starts class lead String.[] m = cc
dot_run-starts class lead (String.◌∷◌ c s) m = ground (arith, m)

dot_run-Agrees :
    (class : Char → Bool) (lead lead' : ℕ)
    → Barred class
    → {r s : String} → Agrees r s
    → is_match (dot_run class lead r) ≡ true
    → is_match (dot_run class lead' s) ≡ true
unfolding dot_run
dot_run-Agrees class lead lead' bar (ends s) m = cc
dot_run-Agrees class lead lead' bar (bracket c r s b) m = absurd (ground (arith, m, b))
dot_run-Agrees class lead lead' bar (same c {r = r} {s = s} a) m =
    let longer = run-Agrees bar a in ground (arith, m, longer)

module _ (p : Pattern) (bar : Barred p.class) (plain : lacks "[" p.literal ≡ true) where
  match_rest-Agrees :
      {r s : String}
      → Agrees r s
      → is_match (match_rest p r) ≡ true
      → is_match (match_rest p s) ≡ true
  unfolding match_rest
  match_rest-Agrees {r} {s} a m = elim (Bool-cases p.dotted) [
    | inr q ↦ let longer = run-Agrees bar a in ground (arith, m, longer)
    | inl q ↦
        let enough : ltb (run p.class r) p.least ≡ false = ground (arith, m) in
        let dot : is_match (dot_run p.class (length p.literal + run p.class r) (after p.class r))
            ≡ true =
          rw (q, enough) at m in
        let (n, rest) = after-Agrees bar a (dot_run-starts p.class _ (after p.class r) dot) in
        let enough' : ltb (run p.class s) p.least ≡ false = rw (← n) enough in
        rw (q, enough') (dot_run-Agrees p.class _ _ bar rest dot)
  ]

  abbrev MatchesRest : Option String → Type 0
  MatchesRest o = is_match (elim o [ none ↦ none | some rest ↦ match_rest p rest ]) ≡ true

  pub match_length-Agrees :
      {r s : String}
      → Agrees r s
      → is_match (match_length p r) ≡ true
      → is_match (match_length p s) ≡ true
  unfolding match_length
  match_length-Agrees {r} {s} a m = elim (Option-cases (strip_prefix p.literal r)) [
    | inl e ↦ absurd (let m' : false ≡ true = subst MatchesRest e m in cc)
    | inr (rest, e) ↦
        let (t, f, b) = strip_prefix-Agrees p.literal plain a e in
        let m' : is_match (match_rest p rest) ≡ true = subst MatchesRest e m in
        subst MatchesRest (sym f) (match_rest-Agrees b m')
  ]
