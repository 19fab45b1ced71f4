-- ===== src/Text/Pattern/Substitution.antt =====
-- What `sub` leaves: no match of its pattern, no new match of another one, and a text without a
-- match as it was. The mark that it puts in starts with an opening bracket.
use Prim.Native.Char.{Char, code}
use h4ckrth0n.Prelude.{
  ℕ, zero, suc, ◌-◌, ◌≡◌, refl, ap, String, Bool, true, false, none, some, eqb, arith, Bool-cases,
  Option-cases, inl, inr,
}
use h4ckrth0n.Text.{append, all_chars}
use h4ckrth0n.Text.Split.{lacks}
use h4ckrth0n.Text.Pattern.{
  Pattern, strip_prefix, match_length, match_rest, is_match, search, sub_from,
}
use h4ckrth0n.Text.Pattern.Agreement.{Agrees, ends, bracket, same, Barred, match_length-Agrees}

-- The literal has a first character, which the mark lacks.
unfoldable pub is_foreign : String → String → Bool
is_foreign String.[] mark = false
is_foreign (String.◌∷◌ x w) mark = lacks x mark

abbrev pub opens : String → Bool
opens String.[] = false
opens (String.◌∷◌ c s) = eqb (code c) b'['

pub record Sound (mark : String) (p : Pattern) : Type 0 where
  pub barred : Barred p.class
  pub plain : lacks "[" p.literal ≡ true
  pub foreign : is_foreign p.literal mark ≡ true

foreign_head :
    (c : Char) (literal mark s : String)
    → is_foreign literal (String.◌∷◌ c mark) ≡ true
    → (strip_prefix literal (String.◌∷◌ c s) ≡ none) × (is_foreign literal mark ≡ true)
unfolding is_foreign strip_prefix lacks all_chars
foreign_head c String.[] mark s f = absurd (ground (arith, f))
foreign_head c (String.◌∷◌ x w) mark s f = ground (arith, f)

foreign_nil :
    (literal mark : String) → is_foreign literal mark ≡ true → strip_prefix literal "" ≡ none
unfolding is_foreign strip_prefix
foreign_nil String.[] mark f = cc
foreign_nil (String.◌∷◌ x w) mark f = refl

module _ (p : Pattern) where
  no_match : (s : String) → strip_prefix p.literal s ≡ none → match_length p s ≡ none
  unfolding match_length
  no_match s e = ap (λ o. elim o [ none ↦ none | some rest ↦ match_rest p rest ]) e

  -- The mark is read over.
  search-append :
      (mark s : String) → is_foreign p.literal mark ≡ true → search p (append mark s) ≡ search p s
  unfolding search append
  search-append String.[] s f = refl
  search-append (String.◌∷◌ c mark) s f =
      let (here, f') = foreign_head c p.literal mark (append mark s) f in
      rw (no_match (String.◌∷◌ c (append mark s)) here) (search-append mark s f')

module _ (mark : String) (open_mark : opens mark ≡ true) where
  Agrees-mark : (m r s : String) → opens m ≡ true → Agrees (append m r) s
  unfolding append
  Agrees-mark String.[] r s o = cc
  Agrees-mark (String.◌∷◌ c m) r s o = bracket c (append m r) s (ground (arith, o))

  sub_from-kept :
      (p : Pattern) (c : Char) (s : String)
      → match_length p (String.◌∷◌ c s) ≡ none
      → sub_from p mark 0 (String.◌∷◌ c s) ≡ String.◌∷◌ c (sub_from p mark 0 s)
  unfolding sub_from
  sub_from-kept p c s e =
      ap
        (λ o. elim o [
          | none ↦ String.◌∷◌ c (sub_from p mark 0 s)
          | some n ↦ append mark (sub_from p mark (n - 1) s)
        ])
        e

  sub_from-marked :
      (p : Pattern) (c : Char) (s : String) (n : ℕ)
      → match_length p (String.◌∷◌ c s) ≡ some n
      → sub_from p mark 0 (String.◌∷◌ c s) ≡ append mark (sub_from p mark (n - 1) s)
  unfolding sub_from
  sub_from-marked p c s n e =
      ap
        (λ o. elim o [
          | none ↦ String.◌∷◌ c (sub_from p mark 0 s)
          | some n ↦ append mark (sub_from p mark (n - 1) s)
        ])
        e

  sub_from-nil : (p : Pattern) (skip : ℕ) → sub_from p mark skip "" ≡ ""
  unfolding sub_from
  sub_from-nil p skip = refl

  sub_from-left_out :
      (p : Pattern) (skip : ℕ) (c : Char) (s : String)
      → sub_from p mark (suc skip) (String.◌∷◌ c s) ≡ sub_from p mark skip s
  unfolding sub_from
  sub_from-left_out p skip c s = refl

  sub_from-Agrees : (p : Pattern) (s : String) → Agrees (sub_from p mark 0 s) s
  sub_from-Agrees p String.[] = rw (sub_from-nil p 0) (ends String.[])
  sub_from-Agrees p (String.◌∷◌ c s) = elim (Option-cases (match_length p (String.◌∷◌ c s))) [
    | inl e ↦ rw (sub_from-kept p c s e) (same c (sub_from-Agrees p s))
    | inr (n, e) ↦
        rw (sub_from-marked p c s n e)
          (Agrees-mark mark (sub_from p mark (n - 1) s) (String.◌∷◌ c s) open_mark)
  ]

  -- A match in what `sub` leaves stands at the same place in the text.
  stays :
      (q : Pattern)
      → Sound mark q
      → {r s : String} → Agrees r s
      → is_match (match_length q s) ≡ false
      → is_match (match_length q r) ≡ false
  stays q sound {r} {s} a none_here = elim (Bool-cases (is_match (match_length q r))) [
    | inr e ↦ e
    | inl e ↦ cc (match_length-Agrees q sound.barred sound.plain a e)
  ]

  -- No match of the pattern is left.
  pub search-sub_from :
      (p : Pattern)
      → Sound mark p
      → (skip : ℕ) (s : String) → search p (sub_from p mark skip s) ≡ false
  unfolding search
  search-sub_from p sound skip String.[] =
      rw (sub_from-nil p skip) (rw (no_match p "" (foreign_nil p.literal mark sound.foreign)))
  search-sub_from p sound (suc skip) (String.◌∷◌ c s) =
      rw (sub_from-left_out p skip c s) (search-sub_from p sound skip s)
  search-sub_from p sound zero (String.◌∷◌ c s) =
      let here = stays p sound (same c (sub_from-Agrees p s)) in
      elim (Option-cases (match_length p (String.◌∷◌ c s))) [
        | inl e ↦
            let here' = here (rw e) in
            rw (sub_from-kept p c s e, here') (search-sub_from p sound 0 s)
        | inr (n, e) ↦
            rw
              (
                sub_from-marked p c s n e,
                search-append p mark (sub_from p mark (n - 1) s) sound.foreign,
              )
              (search-sub_from p sound (n - 1) s)
      ]

  -- No match of another pattern comes in.
  pub sub_from-Keeps :
      (p q : Pattern)
      → Sound mark q
      → (skip : ℕ) (s : String) → search q s ≡ false
      → search q (sub_from p mark skip s) ≡ false
  unfolding search
  sub_from-Keeps p q sound skip String.[] h = rw (sub_from-nil p skip) h
  sub_from-Keeps p q sound (suc skip) (String.◌∷◌ c s) h =
      rw (sub_from-left_out p skip c s) (sub_from-Keeps p q sound skip s (ground (arith, h)))
  sub_from-Keeps p q sound zero (String.◌∷◌ c s) h =
      let here = stays q sound (same c (sub_from-Agrees p s)) (ground (arith, h)) in
      let later : search q s ≡ false = ground (arith, h) in
      elim (Option-cases (match_length p (String.◌∷◌ c s))) [
        | inl e ↦ rw (sub_from-kept p c s e, here) (sub_from-Keeps p q sound 0 s later)
        | inr (n, e) ↦
            rw
              (
                sub_from-marked p c s n e,
                search-append q mark (sub_from p mark (n - 1) s) sound.foreign,
              )
              (sub_from-Keeps p q sound (n - 1) s later)
      ]

  -- A text without a match stays as it is.
  pub sub_from_of_clean : (p : Pattern) (s : String) → search p s ≡ false → sub_from p mark 0 s ≡ s
  unfolding search
  sub_from_of_clean p String.[] h = sub_from-nil p 0
  sub_from_of_clean p (String.◌∷◌ c s) h =
      let rest = sub_from_of_clean p s (ground (arith, h)) in
      elim (Option-cases (match_length p (String.◌∷◌ c s))) [
        | inl e ↦ rw (sub_from-kept p c s e, rest)
        | inr (n, e) ↦ absurd (ground (arith, h, e))
      ]
