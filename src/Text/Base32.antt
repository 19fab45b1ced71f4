-- ===== src/Text/Base32.antt =====
-- `base64.b32encode` of whole groups of five bytes, which need no padding.
use Prim.Native.Char.{Char}
use h4ckrth0n.Prelude.{ℕ, ◌+◌, ◌*◌, ◌/◌, ◌%◌, String, List, ◌∷◌}
use h4ckrth0n.Text.{nth}

abbrev alphabet : String
alphabet = "ABCDEFGHIJKLMNOPQRSTUVWXYZ234567"

-- The character of a five-bit value.
unfoldable pub digit : ℕ → Char
unfolding nth
digit n = nth alphabet n

infixr 67 ◌◂◌
abbrev ◌◂◌ : ℕ → String → String
n ◂ s = String.◌∷◌ (digit n) s

-- A remainder of fewer than five bytes, which the caller rules out, is not encoded.
unfoldable pub b32encode : List ℕ → String
unfolding digit
b32encode (a ∷ b ∷ c ∷ d ∷ e ∷ rest) =
    (a / 8)
    ◂ (a % 8 * 4 + b / 64)
    ◂ (b / 2 % 32)
    ◂ (b % 2 * 16 + c / 16)
    ◂ (c % 16 * 2 + d / 128)
    ◂ (d / 4 % 32)
    ◂ (d % 4 * 8 + e / 32)
    ◂ (e % 32)
    ◂ b32encode rest
b32encode _ = ""
