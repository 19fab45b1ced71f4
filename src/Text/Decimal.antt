-- ===== src/Text/Decimal.antt =====
-- Python's decimal numbers: `str` of an `int`, `int` of a text of digits, and what `\d` matches in a
-- text pattern, the decimal digits of all scripts.
pub mod RoundTrip
use Prim.Native.Char.{Char, code}
use Prim.Native.String
use h4ckrth0n.Prelude.{
  ℕ, zero, suc, ◌+◌, ◌-◌, ◌*◌, ◌/◌, ◌%◌, String, Bool, true, false, ◌&&◌, ◌||◌, Option, none, some,
  List, [], ◌∷◌, leb, ltb, eqb, if◌then◌else◌,
}
use h4ckrth0n.Text.{append, nth}

-- The zeros of the scripts in Unicode 14; the nine characters after each are its other digits.
abbrev pub digit_zeros : List ℕ
digit_zeros =
    0x30 ∷ 0x660 ∷ 0x6f0 ∷ 0x7c0 ∷ 0x966 ∷ 0x9e6 ∷ 0xa66 ∷ 0xae6 ∷ 0xb66 ∷ 0xbe6 ∷ 0xc66 ∷ 0xce6
    ∷ 0xd66 ∷ 0xde6 ∷ 0xe50 ∷ 0xed0 ∷ 0xf20 ∷ 0x1040 ∷ 0x1090 ∷ 0x17e0 ∷ 0x1810 ∷ 0x1946 ∷ 0x19d0
    ∷ 0x1a80 ∷ 0x1a90 ∷ 0x1b50 ∷ 0x1bb0 ∷ 0x1c40 ∷ 0x1c50 ∷ 0xa620 ∷ 0xa8d0 ∷ 0xa900 ∷ 0xa9d0
    ∷ 0xa9f0 ∷ 0xaa50 ∷ 0xabf0 ∷ 0xff10 ∷ 0x104a0 ∷ 0x10d30 ∷ 0x11066 ∷ 0x110f0 ∷ 0x11136 ∷ 0x111d0
    ∷ 0x112f0 ∷ 0x11450 ∷ 0x114d0 ∷ 0x11650 ∷ 0x116c0 ∷ 0x11730 ∷ 0x118e0 ∷ 0x11950 ∷ 0x11c50
    ∷ 0x11d50 ∷ 0x11da0 ∷ 0x16a60 ∷ 0x16ac0 ∷ 0x16b50 ∷ 0x1d7ce ∷ 0x1d7d8 ∷ 0x1d7e2 ∷ 0x1d7ec
    ∷ 0x1d7f6 ∷ 0x1e140 ∷ 0x1e2f0 ∷ 0x1e950 ∷ 0x1fbf0 ∷ []

unfoldable pub digit_from : List ℕ → ℕ → Option ℕ
digit_from [] n = none
digit_from (z ∷ zs) n = if leb z n && leb n (z + 9) then some (n - z) else digit_from zs n

unfoldable pub digit_value : Char → Option ℕ
unfolding digit_from
digit_value c = digit_from digit_zeros (code c)

abbrev is_some : Option ℕ → Bool
is_some none = false
is_some (some n) = true

unfoldable pub is_digit : Char → Bool
is_digit c = is_some (digit_value c)

abbrev value_or_zero : Option ℕ → ℕ
value_or_zero none = 0
value_or_zero (some n) = n

-- `int(s)` of a text of digits, after digits that stand for `acc`.
unfoldable pub int_from : ℕ → String → ℕ
int_from acc String.[] = acc
int_from acc (String.◌∷◌ c s) = int_from (acc * 10 + value_or_zero (digit_value c)) s

unfoldable pub int : String → ℕ
int s = int_from 0 s

unfoldable pub digit : ℕ → Char
unfolding nth
digit d = nth "0123456789" d

-- The digits of a number, at most as many as the first argument says.
unfoldable pub digits : ℕ → ℕ → String
digits zero n = ""
digits (suc most) n =
    let rest = digits most (n / 10) in
    if ltb n 10 then String.◌∷◌ (digit n) "" else append rest (String.◌∷◌ (digit (n % 10)) "")

-- `str(n)`: a number has no more digits than its value and one.
unfoldable pub decimal : ℕ → String
decimal n = digits (n + 1) n
