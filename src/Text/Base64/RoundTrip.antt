-- ===== src/Text/Base64/RoundTrip.antt =====
-- Decoding after encoding.
use Prim.Native.Char.{code}
use h4ckrth0n.Prelude.{
  ℕ, zero, suc, ◌+◌, ◌*◌, ◌/◌, ◌%◌, ◌<◌, ◌≡◌, refl, true, false, ◌&&◌, not, String, some, List, [],
  ◌∷◌, arith, eqb, leb, every_below, every_below_lem,
}
use h4ckrth0n.Models.{AreBytes}
use h4ckrth0n.Text.{append, nth, all_chars}
use h4ckrth0n.Text.Base64.{
  digit, value, Quad, step, a2b, start, pad, bytes_to_base64url, base64url_to_bytes, b64decode,
  is_ascii, cons_byte,
}

infixr 67 ◌◂◌
abbrev ◌◂◌ : ℕ → String → String
n ◂ s = String.◌∷◌ (digit n) s

digit_table :
    every_below (λ n. eqb (value (digit n)) n && not (eqb (code (digit n)) b'=')) 64 ≡ true
unfolding every_below value digit
digit_table = refl

value-digit : (n : ℕ) → n < 64 → (value (digit n) ≡ n) × (eqb (code (digit n)) b'=' ≡ false)
value-digit n h =
    let t =
      every_below_lem (λ n. eqb (value (digit n)) n && not (eqb (code (digit n)) b'=')) 64 n
        digit_table h in
    (ground arith, ground arith)

lt→leb : (n : ℕ) → n < 64 → leb 64 n ≡ false
lt→leb n h = ground arith

a2b-digit : (q : Quad) (n : ℕ) (s : String) → n < 64 → a2b q (n ◂ s) ≡ step q n (λ r. a2b r s)
unfolding a2b
a2b-digit q n s h = rw ((value-digit n h).1, (value-digit n h).0, lt→leb n h)

pad-group : (a b c d : ℕ) (s : String) → pad (a ◂ b ◂ c ◂ d ◂ s) ≡ a ◂ b ◂ c ◂ d ◂ pad s
unfolding pad append
pad-group a b c d s = ground arith

a2b-group :
    (a b c d : ℕ) (s : String)
    → a < 64
    → b < 64
    → c < 64
    → d < 64
    → a2b start (a ◂ b ◂ c ◂ d ◂ s)
      ≡ cons_byte
          (a * 4 + b / 16)
          (cons_byte (b % 16 * 16 + c / 4) (cons_byte (c % 4 * 64 + d) (a2b start s)))
a2b-group a b c d s ha hb hc hd =
    rw (a2b-digit start a (b ◂ c ◂ d ◂ s) ha)
      (rw (a2b-digit _ b (c ◂ d ◂ s) hb) (rw (a2b-digit _ c (d ◂ s) hc) (rw (a2b-digit _ d s hd))))

a2b-pair : (a b : ℕ) → a < 64 → b < 64 → a2b start (a ◂ b ◂ "==") ≡ some ((a * 4 + b / 16) ∷ [])
a2b-pair a b ha hb =
    rw (a2b-digit start a (b ◂ "==") ha) (rw (a2b-digit _ b "==" hb) (unfold a2b in refl))

a2b-triple :
    (a b c : ℕ)
    → a < 64
    → b < 64
    → c < 64
    → a2b start (a ◂ b ◂ c ◂ "=") ≡ some ((a * 4 + b / 16) ∷ (b % 16 * 16 + c / 4) ∷ [])
a2b-triple a b c ha hb hc =
    rw (a2b-digit start a (b ◂ c ◂ "=") ha)
      (rw (a2b-digit _ b (c ◂ "=") hb) (rw (a2b-digit _ c "=" hc) (unfold a2b in refl)))

join-high : (a b : ℕ) → a < 256 → b < 256 → (a / 4) * 4 + (a % 4 * 16 + b / 16) / 16 ≡ a
join-high a b ha hb = omega arith

join-middle :
    (a b c : ℕ)
    → b < 256
    → c < 256
    → (a % 4 * 16 + b / 16) % 16 * 16 + (b % 16 * 4 + c / 64) / 4 ≡ b
join-middle a b c hb hc = omega arith

join-low : (b c : ℕ) → c < 256 → (b % 16 * 4 + c / 64) % 4 * 64 + c % 64 ≡ c
join-low b c hc = omega arith

decoded : (bs : List ℕ) → AreBytes bs → b64decode (bytes_to_base64url bs) ≡ some bs
unfolding b64decode bytes_to_base64url
decoded [] h = refl
decoded (a ∷ []) h = rw (a2b-pair (a / 4) (a % 4 * 16) (omega arith) (omega arith)) (ground arith)
decoded (a ∷ b ∷ []) h =
    rw
      (a2b-triple (a / 4) (a % 4 * 16 + b / 16) (b % 16 * 4) (omega arith) (omega arith)
        (omega arith))
      (ground arith)
decoded (a ∷ b ∷ c ∷ rest) h =
    rw
      (pad-group (a / 4) (a % 4 * 16 + b / 16) (b % 16 * 4 + c / 64) (c % 64)
        (bytes_to_base64url rest))
      (rw
        (a2b-group (a / 4) (a % 4 * 16 + b / 16) (b % 16 * 4 + c / 64) (c % 64)
          (pad (bytes_to_base64url rest)) (omega arith) (omega arith) (omega arith) (omega arith))
        (rw (
          join-high a b h.0 h.1.0,
          join-middle a b c h.1.0 h.1.1.0,
          join-low b c h.1.1.0,
          decoded rest h.1.1.1,
        )))

nth-ascii : (s : String) (n : ℕ) → all_chars is_ascii s ≡ true → is_ascii (nth s n) ≡ true
unfolding nth all_chars
nth-ascii String.[] n h = refl
nth-ascii (String.◌∷◌ c s) zero h = ground (arith, h)
nth-ascii (String.◌∷◌ c s) (suc n) h = nth-ascii s n (ground (arith, h))

digit-ascii : (n : ℕ) → is_ascii (digit n) ≡ true
unfolding digit all_chars
digit-ascii n = nth-ascii "ABCDEFGHIJKLMNOPQRSTUVWXYZabcdefghijklmnopqrstuvwxyz0123456789-_" n refl

written-ascii : (bs : List ℕ) → all_chars is_ascii (bytes_to_base64url bs) ≡ true
unfolding bytes_to_base64url all_chars
written-ascii [] = refl
written-ascii (a ∷ []) = rw (digit-ascii (a / 4), digit-ascii (a % 4 * 16)) refl
written-ascii (a ∷ b ∷ []) =
    rw (digit-ascii (a / 4), digit-ascii (a % 4 * 16 + b / 16), digit-ascii (b % 16 * 4)) refl
written-ascii (a ∷ b ∷ c ∷ rest) =
    rw
      (
        digit-ascii (a / 4),
        digit-ascii (a % 4 * 16 + b / 16),
        digit-ascii (b % 16 * 4 + c / 64),
        digit-ascii (c % 64),
      )
      (written-ascii rest)

-- Bytes that are written in URL-safe base64 without padding are read back the same.
pub base64_roundtrip :
    (bs : List ℕ) → AreBytes bs → base64url_to_bytes (bytes_to_base64url bs) ≡ some bs
unfolding base64url_to_bytes
base64_roundtrip bs h = rw (written-ascii bs) (decoded bs h)
