-- ===== src/Release/Semver/Reading.antt =====
-- A version that is written is read again.
use Prim.Native.Char.{Char, code}
use h4ckrth0n.Prelude.{
  ℕ, zero, suc, ◌+◌, ◌/◌, ◌%◌, ◌<◌, ◌≡◌, refl, sym, ap, ◌∙◌, inl, inr, String, Bool, true, false,
  not, ◌&&◌, ◌||◌, none, some, arith, eqb, leb, ltb, Bool-cases, every_below, every_below_lem,
  if◌then◌else◌,
}
use h4ckrth0n.Result.{ok, err, value_error}
use h4ckrth0n.Text.{append, nth, all_chars}
use h4ckrth0n.Text.Pattern.{after}
use h4ckrth0n.Text.Decimal.{digit_value, is_digit, digit, digits, decimal}
use h4ckrth0n.Text.Decimal.RoundTrip.{int-decimal}
use h4ckrth0n.Release.Semver.{
  Version, leading, number, dot, is_end, last_part, semver, semver_tag, starts_v, parse_version,
  format_version,
}

is_digit-digit : (d : ℕ) → d < 10 → is_digit (digit d) ≡ true
unfolding is_digit digit digit_value nth every_below
is_digit-digit d = every_below_lem (λ d. is_digit (digit d)) 10 d table
  where
    table : every_below (λ d. is_digit (digit d)) 10 ≡ true
    table = refl

is_lead : Char → Bool
is_lead c = leb b'1' (code c) && leb (code c) b'9'

is_lead-digit : (d : ℕ) → 0 < d → d < 10 → is_lead (digit d) ≡ true
unfolding is_lead digit nth every_below
is_lead-digit d pos h =
    let entry = every_below_lem (λ d. eqb d 0 || is_lead (digit d)) 10 d table h in
    let ne : eqb d 0 ≡ false = ground arith in rw ne at entry
  where
    table : every_below (λ d. eqb d 0 || is_lead (digit d)) 10 ≡ true
    table = refl

-- A numeral of a positive number.
positive : String → Bool
positive String.[] = false
positive (String.◌∷◌ c s) = is_lead c && all_chars is_digit s

digits_then :
    (s : String) (c : Char)
    → all_chars is_digit s ≡ true
    → is_digit c ≡ true
    → all_chars is_digit (append s (String.◌∷◌ c "")) ≡ true
unfolding all_chars append
digits_then String.[] c h d = rw d
digits_then (String.◌∷◌ x s) c h d =
    let rest = digits_then s c (ground (arith, h)) d in ground (arith, h, rest)

positive_then :
    (s : String) (c : Char)
    → positive s ≡ true
    → is_digit c ≡ true
    → positive (append s (String.◌∷◌ c "")) ≡ true
unfolding positive append
positive_then String.[] c h d = cc
positive_then (String.◌∷◌ x s) c h d =
    let rest = digits_then s c (ground (arith, h)) d in ground (arith, h, rest)

one_digit : (n : ℕ) → is_lead (digit n) ≡ true → positive (String.◌∷◌ (digit n) "") ≡ true
unfolding positive all_chars
one_digit n h = rw h

digits-positive : (most n : ℕ) → 0 < n → n < most → positive (digits most n) ≡ true
unfolding digits
digits-positive zero n pos h = absurd (omega arith)
digits-positive (suc most) n pos h = elim (Bool-cases (ltb n 10)) [
  | inl e ↦ rw e (one_digit n (is_lead-digit n pos (ground (arith, e))))
  | inr e ↦
      let rest = digits-positive most (n / 10) (ground (arith, e)) (ground (arith, e)) in
      rw e (
        positive_then (digits most (n / 10)) (digit (n % 10)) rest
          (is_digit-digit (n % 10) (omega arith)))
]

-- What may follow a number: the end, or a character that is no digit.
ends_number : String → Bool
ends_number String.[] = true
ends_number (String.◌∷◌ c s) = not (is_digit c)

leading-append :
    (s t : String)
    → all_chars is_digit s ≡ true
    → ends_number t ≡ true
    → (leading is_digit (append s t) ≡ s) × (after is_digit (append s t) ≡ t)
unfolding leading after append all_chars ends_number
leading-append String.[] String.[] h e = (refl, refl)
leading-append String.[] (String.◌∷◌ c t) h e =
    let d : is_digit c ≡ false = ground (arith, e) in rw d (refl, refl)
leading-append (String.◌∷◌ c s) t h e =
    let (a, b) = leading-append s t (ground (arith, h)) e in
    let d : is_digit c ≡ true = ground (arith, h) in rw d (rw a, b)

number_of_positive :
    (s t : String) → positive s ≡ true → ends_number t ≡ true → number (append s t) ≡ some (s, t)
unfolding number append positive is_lead
number_of_positive String.[] t h e = cc
number_of_positive (String.◌∷◌ c s) t h e =
    let (a, b) = leading-append s t (ground (arith, h)) e in
    let ne : eqb (code c) b'0' ≡ false = ground (arith, h) in
    let low : leb b'1' (code c) ≡ true = ground (arith, h) in
    let high : leb (code c) b'9' ≡ true = ground (arith, h) in rw (ne, low, high, a, b)

number_zero : (t : String) → number (append (digits (0 + 1) 0) t) ≡ some (digits (0 + 1) 0, t)
unfolding number append digits digit nth
number_zero t = refl

number-decimal :
    (n : ℕ) (t : String)
    → ends_number t ≡ true
    → number (append (decimal n) t) ≡ some (decimal n, t)
unfolding decimal
number-decimal zero t e = number_zero t
number-decimal (suc n) t e =
    number_of_positive (digits (suc n + 1) (suc n)) t
      (digits-positive (suc n + 1) (suc n) (omega arith) (omega arith)) e

append-nil : (s : String) → append s "" ≡ s
unfolding append
append-nil String.[] = refl
append-nil (String.◌∷◌ c s) = ap (λ t. String.◌∷◌ c t) (append-nil s)

dot-append : (s : String) → dot (append "." s) ≡ some s
unfolding dot append
dot-append s = refl

ends_number-dot : (s : String) → ends_number (append "." s) ≡ true
unfolding ends_number append is_digit digit_value
ends_number-dot s = refl

pub semver-format_version : (v : Version) → semver (format_version v) ≡ some v
unfolding semver format_version last_part is_end ends_number
semver-format_version v =
    let c : number (decimal v.patch) ≡ some (decimal v.patch, "") =
      ap number (sym (append-nil (decimal v.patch))) ∙ number-decimal v.patch "" refl in
    let b = number-decimal v.minor (append "." (decimal v.patch)) (ends_number-dot _) in
    let a =
      number-decimal v.major (append "." (append (decimal v.minor) (append "." (decimal v.patch))))
        (ends_number-dot _) in
    rw (
      a,
      dot-append (append (decimal v.minor) (append "." (decimal v.patch))),
      b,
      dot-append (decimal v.patch),
      c,
      int-decimal v.major,
      int-decimal v.minor,
      int-decimal v.patch,
    )

no_v_positive : (s t : String) → positive s ≡ true → starts_v (append s t) ≡ false
unfolding starts_v append positive is_lead
no_v_positive String.[] t h = cc
no_v_positive (String.◌∷◌ c s) t h = ground (arith, h)

no_v_zero : (t : String) → starts_v (append (digits (0 + 1) 0) t) ≡ false
unfolding starts_v append digits digit nth
no_v_zero t = refl

no_v : (n : ℕ) (t : String) → starts_v (append (decimal n) t) ≡ false
unfolding decimal
no_v zero t = no_v_zero t
no_v (suc n) t =
    no_v_positive (digits (suc n + 1) (suc n)) t
      (digits-positive (suc n + 1) (suc n) (omega arith) (omega arith))

semver_tag-v : (s : String) → semver_tag (append "v" s) ≡ semver s
unfolding semver_tag append
semver_tag-v s = refl

starts_v-v : (s : String) → starts_v (append "v" s) ≡ true
unfolding starts_v append
starts_v-v s = refl

no_v-format_version : (v : Version) → starts_v (format_version v) ≡ false
unfolding format_version
no_v-format_version v =
    no_v v.major (append "." (append (decimal v.minor) (append "." (decimal v.patch))))

parse_of_match :
    (version : String) (v : Version)
    → semver_tag (if starts_v version then version else append "v" version) ≡ some v
    → parse_version version ≡ ok v
unfolding parse_version
parse_of_match version v h =
    ap
      (λ o. elim o [
        | none ↦ err (value_error (append "Invalid version: " version))
        | some v ↦ ok v
      ])
      h

-- Reading a written version, with or without the `v` of a tag, gives the version back.
pub parse-format_version :
    (v : Version)
    → (parse_version (format_version v) ≡ ok v)
      × (parse_version (append "v" (format_version v)) ≡ ok v)
      × (semver_tag (append "v" (format_version v)) ≡ some v)
      × (semver (format_version v) ≡ some v)
parse-format_version v = (
  parse_of_match (format_version v) v (rw (no_v-format_version v) tagged),
  parse_of_match (append "v" (format_version v)) v (rw (starts_v-v (format_version v)) tagged),
  tagged,
  semver-format_version v,
)
  where
    tagged : semver_tag (append "v" (format_version v)) ≡ some v
    tagged = semver_tag-v (format_version v) ∙ semver-format_version v
