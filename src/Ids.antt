-- ===== src/Ids.antt =====
-- The identifiers of src/h4ckath0n/auth/passkeys/ids.py. The random stream is an argument: it
-- returns as many bytes as it is asked for.
pub mod Validity
pub mod Reader
use Prim.Native.Char.{Char, code}
use Prim.Native.String
use h4ckrth0n.Prelude.{
  ℕ, ◌%◌, ◌/◌, ◌*◌, String, Bool, ◌&&◌, ◌||◌, List, [], ◌∷◌, leb, eqb, ◌==◌, if◌then◌else◌,
}
use h4ckrth0n.Models.{Bytes}
use h4ckrth0n.Result.{Result, ok, err, value_error}
use h4ckrth0n.Text.{length, lower, all_chars, tail, append}
use h4ckrth0n.Json.Dumps.{hex}
use h4ckrth0n.Text.Base32.{b32encode}

-- `_thread_reader().read`
abbrev pub Stream : Type 0
Stream = ℕ → Bytes

unfoldable pub random_bytes : Stream → ℕ → Result Bytes
random_bytes read nbytes =
    if leb nbytes 0 then err (value_error "nbytes must be > 0") else ok (read nbytes)

abbrev map_ok {ℓ κ} : {A : Type ℓ} {B : Type κ} → (A → B) → Result A → Result B
map_ok f (ok a) = ok (f a)
map_ok f (err e) = err e

unfoldable pub random_base32 : Stream → ℕ → Result String
unfolding random_bytes
random_base32 read nbytes =
    if eqb (nbytes % 5) 0
    then map_ok (λ raw. lower (b32encode raw)) (random_bytes read nbytes)
    else err (value_error "nbytes must be a multiple of 5 to avoid base32 padding")

-- `"u" + s[1:]`, with the default of 20 bytes
unfoldable pub new_user_id : Stream → Result String
unfolding random_base32
new_user_id read = map_ok (λ s. append "u" (tail s)) (random_base32 read 20)

unfoldable pub new_key_id : Stream → Result String
unfolding random_base32
new_key_id read = map_ok (λ s. append "k" (tail s)) (random_base32 read 20)

unfoldable pub new_device_id : Stream → Result String
unfolding random_base32
new_device_id read = map_ok (λ s. append "d" (tail s)) (random_base32 read 20)

unfoldable pub new_token_id : Stream → Result String
unfolding random_bytes
new_token_id read = map_ok hex (random_bytes read 16)

abbrev id_len : ℕ
id_len = 32

-- membership in `_ALLOWED_CHARS`
pub is_allowed : Char → Bool
is_allowed c = let n = code c in leb b'a' n && leb n b'z' || leb b'2' n && leb n b'7'

-- `value[:1]`
unfoldable pub take_one : String → String
take_one String.[] = ""
take_one (String.◌∷◌ c s) = String.◌∷◌ c ""

unfoldable pub is_user_id : String → Bool
unfolding is_allowed take_one
is_user_id value =
    eqb (length value) id_len && take_one value == "u" && all_chars is_allowed (tail value)

unfoldable pub is_key_id : String → Bool
unfolding is_allowed take_one
is_key_id value =
    eqb (length value) id_len && take_one value == "k" && all_chars is_allowed (tail value)

unfoldable pub is_device_id : String → Bool
unfolding is_allowed take_one
is_device_id value =
    eqb (length value) id_len && take_one value == "d" && all_chars is_allowed (tail value)
