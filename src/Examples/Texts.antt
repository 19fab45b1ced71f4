-- ===== src/Examples/Texts.antt =====
-- Runs of the identifiers and of base64.
use h4ckrth0n.Prelude.{
  ℕ, zero, suc, ◌≡◌, refl, ap, some, true, false, [], ◌∷◌, arith, length as list_length,
}
use h4ckrth0n.Models.{Bytes, AreBytes}
use h4ckrth0n.Ids.{new_user_id, new_key_id, new_device_id}
use h4ckrth0n.Ids.Validity.{Generates, generated_ids}
use h4ckrth0n.Text.Base64.{bytes_to_base64url, base64url_to_bytes}
use h4ckrth0n.Text.Base64.RoundTrip.{base64_roundtrip}
use h4ckrth0n.Examples.{zeros}

zeros-length : (n : ℕ) → list_length (zeros n) ≡ n
zeros-length zero = refl
zeros-length (suc n) = ap suc (zeros-length n)

zeros-bytes : (n : ℕ) → AreBytes (zeros n)
zeros-bytes zero = tt
zeros-bytes (suc n) = (omega arith, zeros-bytes n)

generated_ids_example :
    Generates (new_user_id zeros) true false false
    × Generates (new_key_id zeros) false true false
    × Generates (new_device_id zeros) false false true
generated_ids_example = generated_ids zeros (record { sized = zeros-length; bytes = zeros-bytes })

abbrev four_bytes : Bytes
four_bytes = 255 ∷ 0 ∷ 17 ∷ 128 ∷ []

all_bytes : AreBytes four_bytes
all_bytes = (omega arith, (omega arith, (omega arith, (omega arith, tt))))

base64_roundtrip_example : base64url_to_bytes (bytes_to_base64url four_bytes) ≡ some four_bytes
base64_roundtrip_example = base64_roundtrip four_bytes all_bytes
