-- ===== src/Ids/Reader/Invariant.antt =====
-- The invariant of the readers: no two threads would use the same stream, every reader is ahead of
-- what was read from its stream, and no part of a stream was read twice.
use h4ckrth0n.Prelude.{
  ℕ, ◌+◌, ◌%◌, ◌≤◌, ◌<◌, ◌≡◌, sym, ◌∙◌, Bool, ◌&&◌, ◌⊎◌, inl, inr, some, List, [], ◌∷◌, ◌++◌, eqb,
  arith, length, Every, Bool-cases,
}
use h4ckrth0n.Models.{Bytes}
use h4ckrth0n.Ids.Reader.{
  Entropy, Reader, Tls, Machine, Squeeze, new_reader, u64, u64le, set_slot, kept,
}
use h4ckrth0n.Ids.Reader.Words.{length-little_endian}

-- The call ends where, or before, a place of the stream.
abbrev pub EndsBy : Bytes → ℕ → Squeeze → Type 0
EndsBy absorbed place d = d.absorbed ≡ absorbed → d.start + d.nbytes ≤ place

-- Each call starts where, or after, all earlier calls on its stream ended.
abbrev pub Apart : List Squeeze → Type 0
Apart [] = Unit
Apart (c ∷ log) = Every (EndsBy c.absorbed c.start) log × Apart log

abbrev pub Live : Bool → Machine → ℕ → ℕ → Reader → Type 0
Live hook m p t r = kept hook p (m.slots p t) ≡ some r

-- The stream of one of the readers made so far.
abbrev pub Drawn : Entropy → ℕ → Bytes → Type 0
Drawn e n absorbed = (t : ℕ) × (k : ℕ) × (k < n) × (absorbed ≡ (new_reader e t k).absorbed)

pub record Separate (e : Entropy) (hook : Bool) (m : Machine) : Type 0 where
  pub ahead :
      (p t : ℕ) (r : Reader) → Live hook m p t r → Every (EndsBy r.absorbed r.squeezed) m.log
  pub own :
      (p t p' t' : ℕ) (r r' : Reader)
      → Live hook m p t r
      → Live hook m p' t' r'
      → r.absorbed ≡ r'.absorbed
      → (p ≡ p') × (t ≡ t')
  pub drawn : (p t : ℕ) (r : Reader) → Live hook m p t r → Drawn e m.drawn r.absorbed
  pub logged : Every (λ c. Drawn e m.drawn c.absorbed) m.log
  pub apart : Apart m.log

pub set_slot-cases :
    (pid tid : ℕ) (tls : Tls) (slots : ℕ → ℕ → Tls) (p t : ℕ)
    → ((p ≡ pid) × (t ≡ tid) × (set_slot pid tid tls slots p t ≡ tls))
      ⊎ (((p ≡ pid) × (t ≡ tid) → ⊥) × (set_slot pid tid tls slots p t ≡ slots p t))
set_slot-cases pid tid tls slots p t = elim (Bool-cases (eqb p pid && eqb t tid)) [
  | inl e ↦ inl (ground (arith, e), ground (arith, e), rw e)
  | inr e ↦ inr (λ same. ground (arith, e, same), rw e)
]

cancel_left : (xs : Bytes) {ys zs : Bytes} → xs ++ ys ≡ xs ++ zs → ys ≡ zs
cancel_left [] h = h
cancel_left (x ∷ xs) h = cancel_left xs cc

cancel_same :
    (xs ys : Bytes) {zs ws : Bytes} → length xs ≡ length ys → xs ++ zs ≡ ys ++ ws → zs ≡ ws
cancel_same [] [] l h = h
cancel_same [] (y ∷ ys) l h = absurd (omega arith)
cancel_same (x ∷ xs) [] l h = absurd (omega arith)
cancel_same (x ∷ xs) (y ∷ ys) l h = cancel_same xs ys (omega arith) cc

length-u64le : (x : ℕ) → length (u64le x) ≡ 8
unfolding u64le
length-u64le x = length-little_endian 8 (x % u64)

-- Streams of different draws differ.
pub same_draw :
    (e : Entropy)
    → ((i j : ℕ) → e.urandom i ≡ e.urandom j → i ≡ j)
    → (t k t' k' : ℕ) → (new_reader e t k).absorbed ≡ (new_reader e t' k').absorbed
    → k ≡ k'
unfolding new_reader
same_draw e distinct t k t' k' h = distinct k k' (
    cancel_same (u64le t) (u64le t') (length-u64le t ∙ sym (length-u64le t'))
      (cancel_left e.master_key (cancel_left e.domain h)))
