-- ===== src/Text/Strip.antt =====
-- `str.strip`: what is left has no white space at its ends.
use Prim.Native.Char.{Char}
use h4ckrth0n.Prelude.{
  ◌≡◌, refl, ap, ◌∙◌, String, Bool, true, false, not, ◌&&◌, ◌==◌, Bool-cases, inl, inr, arith,
}
use h4ckrth0n.Text.{is_space, lstrip, rstrip, strip}

-- A text that does not start with white space.
abbrev starts_dark : String → Bool
starts_dark String.[] = true
starts_dark (String.◌∷◌ c s) = not (is_space c)

dark : (c : Char) (s : String) → is_space c ≡ false → starts_dark (String.◌∷◌ c s) ≡ true
dark c s e = ground (arith, e)

lstrip-dark : (s : String) → starts_dark (lstrip s) ≡ true
unfolding lstrip
lstrip-dark String.[] = refl
lstrip-dark (String.◌∷◌ c s) = elim (Bool-cases (is_space c)) [
  | inl e ↦ rw e (lstrip-dark s)
  | inr e ↦ rw e (dark c s e)
]

lstrip_of_dark : (s : String) → starts_dark s ≡ true → lstrip s ≡ s
unfolding lstrip
lstrip_of_dark String.[] h = refl
lstrip_of_dark (String.◌∷◌ c s) h = let e : is_space c ≡ false = ground (arith, h) in rw e

rstrip-dark : (s : String) → starts_dark s ≡ true → starts_dark (rstrip s) ≡ true
unfolding rstrip
rstrip-dark String.[] h = refl
rstrip-dark (String.◌∷◌ c s) h =
    let e : is_space c ≡ false = ground (arith, h) in
    elim (Bool-cases (rstrip s == "")) [ inl d ↦ rw (d, e) (dark c (rstrip s) e) | inr d ↦ rw d h ]

rstrip-rstrip : (s : String) → rstrip (rstrip s) ≡ rstrip s
unfolding rstrip
rstrip-rstrip String.[] = refl
rstrip-rstrip (String.◌∷◌ c s) =
    let rest = rstrip-rstrip s in
    elim (Bool-cases (rstrip s == "" && is_space c)) [ inl d ↦ rw d | inr d ↦ rw (d, rest, d) ]

pub strip-strip : (s : String) → strip (strip s) ≡ strip s
unfolding strip
strip-strip s =
    ap rstrip (lstrip_of_dark (rstrip (lstrip s)) (rstrip-dark (lstrip s) (lstrip-dark s)))
    ∙ rstrip-rstrip (lstrip s)
