-- ===== src/Ids/Reader/Words.antt =====
-- `_u64le` is an encoding of 64-bit words.
use h4ckrth0n.Prelude.{
  ℕ, zero, suc, ◌+◌, ◌*◌, ◌/◌, ◌%◌, ◌<◌, ◌≡◌, refl, sym, ap, ◌∙◌, ◌↔◌, true, [], ◌∷◌, ltb, lt→ltb,
  length, all, arith,
}
use h4ckrth0n.Models.{Bytes}
use h4ckrth0n.Ids.Reader.{little_endian, u64, u64le}

-- `int.from_bytes(b, "little")`
unfoldable pub from_little_endian : Bytes → ℕ
from_little_endian [] = 0
from_little_endian (b ∷ bs) = b + 256 * from_little_endian bs

bound : ℕ → ℕ
bound zero = 1
bound (suc n) = 256 * bound n

pub length-little_endian : (n x : ℕ) → length (little_endian n x) ≡ n
unfolding little_endian
length-little_endian zero x = refl
length-little_endian (suc n) x = omega (arith, length-little_endian n (x / 256))

little_endian-bytes : (n x : ℕ) → all (λ b. ltb b 256) (little_endian n x) ≡ true
unfolding little_endian all
little_endian-bytes zero x = refl
little_endian-bytes (suc n) x =
    rw (lt→ltb (x % 256) 256 (omega arith)) (little_endian-bytes n (x / 256))

little_endian-value : (n x : ℕ) → x < bound n → from_little_endian (little_endian n x) ≡ x
unfolding little_endian from_little_endian bound
little_endian-value zero x h = omega arith
little_endian-value (suc n) x h =
    let rest = little_endian-value n (x / 256) (omega arith) in omega arith

word-lt-bound : (z : ℕ) → z % u64 < bound 8
unfolding bound
word-lt-bound z = omega arith

-- The encoding of a number is eight bytes, which stand for the number modulo 2 ^ 64, least
-- significant first; so two numbers are encoded alike exactly if they are equal modulo 2 ^ 64.
pub u64le_bounds :
    (x y : ℕ)
    → (length (u64le x) ≡ 8)
      × (all (λ b. ltb b 256) (u64le x) ≡ true)
      × (from_little_endian (u64le x) ≡ x % u64)
      × ((u64le x ≡ u64le y) ↔ (x % u64 ≡ y % u64))
unfolding u64le
u64le_bounds x y = (
  length-little_endian 8 (x % u64),
  little_endian-bytes 8 (x % u64),
  value x,
  (λ e. sym (value x) ∙ ap from_little_endian e ∙ value y, λ e. ap (little_endian 8) e),
)
  where
    value : (z : ℕ) → from_little_endian (little_endian 8 (z % u64)) ≡ z % u64
    value z = little_endian-value 8 (z % u64) (word-lt-bound z)
