-- ===== src/Text/Decimal/RoundTrip.antt =====
-- `int` reads what `str` writes, and what `str` writes has no leading zero.
use Prim.Native.Char.{Char}
use h4ckrth0n.Prelude.{
  ℕ, zero, suc, ◌+◌, ◌*◌, ◌/◌, ◌%◌, ◌<◌, ◌≡◌, refl, inl, inr, String, true, arith, eqb, eqb_iff,
  ltb, Bool-cases, every_below, every_below_lem,
}
use h4ckrth0n.Text.{append, nth}
use h4ckrth0n.Text.Decimal.{digit_value, int_from, int, digit, digits, decimal, value_or_zero}

pub value-digit : (d : ℕ) → d < 10 → value_or_zero (digit_value (digit d)) ≡ d
unfolding digit digit_value nth every_below
value-digit d h =
    (eqb_iff (value_or_zero (digit_value (digit d))) d).0
      (every_below_lem (λ d. eqb (value_or_zero (digit_value (digit d))) d) 10 d table h)
  where
    table : every_below (λ d. eqb (value_or_zero (digit_value (digit d))) d) 10 ≡ true
    table = refl

int_from-append :
    (acc : ℕ) (s : String) (c : Char)
    → int_from acc (append s (String.◌∷◌ c ""))
      ≡ int_from acc s * 10 + value_or_zero (digit_value c)
unfolding int_from append
int_from-append acc String.[] c = refl
int_from-append acc (String.◌∷◌ x s) c =
    int_from-append (acc * 10 + value_or_zero (digit_value x)) s c

int-digits : (most n : ℕ) → n < most → int_from 0 (digits most n) ≡ n
unfolding digits int_from
int-digits zero n h = absurd (omega arith)
int-digits (suc most) n h = elim (Bool-cases (ltb n 10)) [
  | inl e ↦ let one = value-digit n (ground (arith, e)) in rw e (omega (arith, one))
  | inr e ↦
      let rest = int-digits most (n / 10) (ground (arith, e)) in
      let last = value-digit (n % 10) (omega arith) in
      rw (e, int_from-append 0 (digits most (n / 10)) (digit (n % 10)), rest, last) (omega arith)
]

-- `int(str(n)) == n`
pub int-decimal : (n : ℕ) → int (decimal n) ≡ n
unfolding int decimal
int-decimal n = int-digits (n + 1) n (omega arith)
