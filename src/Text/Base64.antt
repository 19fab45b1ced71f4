-- ===== src/Text/Base64.antt =====
-- The URL-safe base64 of `bytes_to_base64url` and `base64url_to_bytes` of
-- src/h4ckath0n/auth/passkeys/webauthn.py, with CPython's `binascii.a2b_base64`, not strict, below
-- the second.
pub mod RoundTrip
use Prim.Native.Char.{Char, code}
use Prim.Native.String
use h4ckrth0n.Prelude.{
  ℕ, suc, zero, ◌+◌, ◌-◌, ◌*◌, ◌/◌, ◌%◌, ◌&&◌, String, Bool, Option, none, some, List, [], ◌∷◌, ltb,
  leb, eqb, if◌then◌else◌,
}
use h4ckrth0n.Text.{length, nth, append, all_chars}

abbrev alphabet : String
alphabet = "ABCDEFGHIJKLMNOPQRSTUVWXYZabcdefghijklmnopqrstuvwxyz0123456789-_"

pub digit : ℕ → Char
unfolding nth
digit n = nth alphabet n

infixr 67 ◌◂◌
abbrev ◌◂◌ : ℕ → String → String
n ◂ s = String.◌∷◌ (digit n) s

-- `urlsafe_b64encode(b).rstrip(b"=")`: the last group of one or two bytes goes without padding.
unfoldable pub bytes_to_base64url : List ℕ → String
unfolding digit
bytes_to_base64url [] = ""
bytes_to_base64url (a ∷ []) = (a / 4) ◂ (a % 4 * 16) ◂ ""
bytes_to_base64url (a ∷ b ∷ []) = (a / 4) ◂ (a % 4 * 16 + b / 16) ◂ (b % 16 * 4) ◂ ""
bytes_to_base64url (a ∷ b ∷ c ∷ rest) =
    (a / 4) ◂ (a % 4 * 16 + b / 16) ◂ (b % 16 * 4 + c / 64) ◂ (c % 64) ◂ bytes_to_base64url rest

-- The value of a character, 64 for one outside the alphabet. `-` and `_` are taken to `+` and `/`
-- first, so all four stand for a value.
pub value : Char → ℕ
value c =
    let n = code c in
    if leb b'A' n && leb n b'Z'
    then n - b'A'
    else if leb b'a' n && leb n b'z'
    then n - b'a' + 26
    else if leb b'0' n && leb n b'9'
    then n - b'0' + 52
    else if eqb n b'-'
    then 62
    else if eqb n b'+'
    then 62
    else if eqb n b'_'
    then 63
    else if eqb n b'/'
    then 63
    else 64

-- The decoder's position in a group of four, the bits kept for the next byte, and the run of `=`.
pub record Quad : Type 0 where
  pub pos : ℕ
  pub left : ℕ
  pub pads : ℕ

abbrev cons_byte : ℕ → Option (List ℕ) → Option (List ℕ)
cons_byte b none = none
cons_byte b (some bs) = some (b ∷ bs)

-- Where the input ends inside a group the decoder raises `binascii.Error`.
abbrev at_end : ℕ → Option (List ℕ)
at_end zero = some []
at_end (suc n) = none

-- What a character of value `v` adds at a position, before the rest is decoded.
abbrev step : Quad → ℕ → (Quad → Option (List ℕ)) → Option (List ℕ)
step q v rest =
    if eqb q.pos 0
    then rest (record { pos = 1; left = v; pads = 0 })
    else if eqb q.pos 1
    then cons_byte (q.left * 4 + v / 16) (rest (record { pos = 2; left = v % 16; pads = 0 }))
    else if eqb q.pos 2
    then cons_byte (q.left * 16 + v / 4) (rest (record { pos = 3; left = v % 4; pads = 0 }))
    else cons_byte (q.left * 64 + v) (rest (record { pos = 0; left = 0; pads = 0 }))

-- The group is over when padding completes it; what follows is not read.
pub a2b : Quad → String → Option (List ℕ)
unfolding value
a2b q String.[] = at_end q.pos
a2b q (String.◌∷◌ c s) =
    let rest = λ (r : Quad). a2b r s in
    if eqb (code c) b'='
    then (if leb 2 q.pos
        then (if leb 4 (q.pos + suc q.pads) then some [] else rest (record q { pads = suc q.pads }))
        else rest q)
    else if leb 64 (value c)
    then rest q
    else step q (value c) rest

abbrev start : Quad
start = record { pos = 0; left = 0; pads = 0 }

-- `padding = 4 - len(s) % 4`, added unless it is 4
unfoldable pub pad : String → String
pad s =
    let padding = 4 - length s % 4 in
    if eqb padding 4
    then s
    else if eqb padding 1
    then append s "="
    else if eqb padding 2
    then append s "=="
    else append s "==="

-- The decoding of a text that is ASCII.
unfoldable pub b64decode : String → Option (List ℕ)
unfolding pad a2b append
b64decode s = a2b start (pad s)

abbrev pub is_ascii : Char → Bool
is_ascii c = ltb (code c) 128

-- `none` is the `ValueError` of a text that is malformed or not ASCII.
unfoldable pub base64url_to_bytes : String → Option (List ℕ)
unfolding b64decode all_chars
base64url_to_bytes s = if all_chars is_ascii s then b64decode s else none
