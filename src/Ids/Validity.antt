-- ===== src/Ids/Validity.antt =====
-- Every generated identifier passes the validator of its kind, and no other.
use h4ckrth0n.Prelude.{
  ℕ, ◌<◌, ◌-◌, ◌/◌, ◌%◌, ◌+◌, ◌*◌, ◌≡◌, refl, Bool, true, false, [], ◌∷◌, arith, String,
  length as list_length, every_below, every_below_lem,
}
use h4ckrth0n.Models.{Bytes, AreBytes}
use h4ckrth0n.Result.{Result, ok}
use h4ckrth0n.Text.{length, lower, lower_char, all_chars, tail, append}
use h4ckrth0n.Text.Base32.{b32encode, digit}
use h4ckrth0n.Ids.{
  Stream, random_base32, new_user_id, new_key_id, new_device_id, is_allowed, is_user_id, is_key_id,
  is_device_id,
}

allowed_table : every_below (λ n. is_allowed (lower_char (digit n))) 32 ≡ true
unfolding every_below is_allowed lower_char digit
allowed_table = refl

digit-allowed : (n : ℕ) → n < 32 → is_allowed (lower_char (digit n)) ≡ true
digit-allowed n h = every_below_lem (λ n. is_allowed (lower_char (digit n))) 32 n allowed_table h

b32encode-allowed : (bs : Bytes) → AreBytes bs → all_chars is_allowed (lower (b32encode bs)) ≡ true
unfolding b32encode lower all_chars
b32encode-allowed (a ∷ b ∷ c ∷ d ∷ e ∷ rest) (ha, (hb, (hc, (hd, (he, hr))))) =
    rw
      (
        digit-allowed (a / 8) (omega arith),
        digit-allowed (a % 8 * 4 + b / 64) (omega arith),
        digit-allowed (b / 2 % 32) (omega arith),
        digit-allowed (b % 2 * 16 + c / 16) (omega arith),
        digit-allowed (c % 16 * 2 + d / 128) (omega arith),
        digit-allowed (d / 4 % 32) (omega arith),
        digit-allowed (d % 4 * 8 + e / 32) (omega arith),
        digit-allowed (e % 32) (omega arith),
      )
      (b32encode-allowed rest hr)
b32encode-allowed [] h = refl
b32encode-allowed (_ ∷ []) h = refl
b32encode-allowed (_ ∷ _ ∷ []) h = refl
b32encode-allowed (_ ∷ _ ∷ _ ∷ []) h = refl
b32encode-allowed (_ ∷ _ ∷ _ ∷ _ ∷ []) h = refl

length-b32encode :
    (k : ℕ) (bs : Bytes) → list_length bs ≡ 5 * k → length (lower (b32encode bs)) ≡ 8 * k
unfolding b32encode lower
length-b32encode k (a ∷ b ∷ c ∷ d ∷ e ∷ rest) h =
    omega (arith, length-b32encode (k - 1) rest (omega arith))
length-b32encode k [] h = omega arith
length-b32encode k (_ ∷ []) h = absurd (omega arith)
length-b32encode k (_ ∷ _ ∷ []) h = absurd (omega arith)
length-b32encode k (_ ∷ _ ∷ _ ∷ []) h = absurd (omega arith)
length-b32encode k (_ ∷ _ ∷ _ ∷ _ ∷ []) h = absurd (omega arith)

-- The stream returns bytes, as many as asked for.
pub record IsStream (read : Stream) : Type 0 where
  pub sized : (n : ℕ) → list_length (read n) ≡ n
  pub bytes : (n : ℕ) → AreBytes (read n)

-- What `s[1:]` keeps of a text of 32 allowed characters.
abbrev Random : String → Type 0
Random s = (length s ≡ 32) × (all_chars is_allowed s ≡ true)

random_base32-Random :
    (read : Stream) → IsStream read → (s : String) × (random_base32 read 20 ≡ ok s) × Random s
unfolding random_base32
random_base32-Random read g = (
  lower (b32encode (read 20)),
  refl,
  (length-b32encode 4 (read 20) (g.sized 20), b32encode-allowed (read 20) (g.bytes 20)),
)

user_prefix :
    (s : String)
    → Random s
    → let v = append "u" (tail s) in
      (is_user_id v ≡ true) × (is_key_id v ≡ false) × (is_device_id v ≡ false)
unfolding is_user_id is_key_id is_device_id append tail all_chars
user_prefix String.[] h = absurd (omega arith)
user_prefix (String.◌∷◌ c t) h = ground arith

key_prefix :
    (s : String)
    → Random s
    → let v = append "k" (tail s) in
      (is_user_id v ≡ false) × (is_key_id v ≡ true) × (is_device_id v ≡ false)
unfolding is_user_id is_key_id is_device_id append tail all_chars
key_prefix String.[] h = absurd (omega arith)
key_prefix (String.◌∷◌ c t) h = ground arith

device_prefix :
    (s : String)
    → Random s
    → let v = append "d" (tail s) in
      (is_user_id v ≡ false) × (is_key_id v ≡ false) × (is_device_id v ≡ true)
unfolding is_user_id is_key_id is_device_id append tail all_chars
device_prefix String.[] h = absurd (omega arith)
device_prefix (String.◌∷◌ c t) h = ground arith

-- An identifier that was generated, and what the three validators say of it.
abbrev pub Generates : Result String → Bool → Bool → Bool → Type 0
Generates r user key device =
    (v : String) × (r ≡ ok v)
    × (is_user_id v ≡ user)
    × (is_key_id v ≡ key)
    × (is_device_id v ≡ device)

-- From a random stream that returns as many bytes as it is asked for, the three generators return,
-- and each identifier passes the validator of its own kind and fails the other two.
pub generated_ids :
    (read : Stream)
    → IsStream read
    → Generates (new_user_id read) true false false
      × Generates (new_key_id read) false true false
      × Generates (new_device_id read) false false true
unfolding new_user_id new_key_id new_device_id
generated_ids read g =
    let (s, e, h) = random_base32-Random read g in
    let (u₁, u₂, u₃) = user_prefix s h in
    let (k₁, k₂, k₃) = key_prefix s h in
    let (d₁, d₂, d₃) = device_prefix s h in
    (
      (append "u" (tail s), ground arith, u₁, u₂, u₃),
      (append "k" (tail s), ground arith, k₁, k₂, k₃),
      (append "d" (tail s), ground arith, d₁, d₂, d₃),
    )
