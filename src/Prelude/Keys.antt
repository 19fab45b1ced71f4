-- ===== src/Prelude/Keys.antt =====
-- Laws of tables whose rows have a key that no two of them share: what is found under a key.
use Prim.Native.String.{String}
use mathlib.Core.Path.{◌≡◌, refl, sym, ap, ◌∙◌, subst}
use mathlib.Core.Logic.{inl, inr}
use mathlib.Core.Bool.{Bool, true, false, ◌&&◌}
use mathlib.Core.Option.{Option, none, some}
use mathlib.Core.List.{List, [], ◌∷◌, ◌++◌, map}
use native.Mathlib.Omega.{arith}
use text.Mathlib.Text.{◌==◌}
use text.Mathlib.TextEquality.{eq_iff}
use text.Mathlib.TextPositions.{eq_refl}
use h4ckrth0n.Prelude.Tests.{if◌then◌else◌, is_none, Bool-cases}
use h4ckrth0n.Prelude.Lists.{first, update, contains, distinct}
use h4ckrth0n.Prelude.Rows.{
  changed, first-append, first-update, first-true, contains_of_first, contains-concat,
}

-- A row is the first with its key, and its update changes what is found under that key alone.
module _ {ℓ} {A : Type ℓ} (key : A → String) where
  pub first-by_key :
      (q : A → Bool) (xs : List A) (a : A)
      → distinct (map key xs) ≡ true
      → first q xs ≡ some a
      → first (λ x. key x == key a) xs ≡ some a
  unfolding first distinct
  first-by_key q [] a d h = cc
  first-by_key q (x ∷ xs) a d h = elim (Bool-cases (q x)) [
    | inl hit ↦
        let e : some x ≡ some a = ground arith in
        let same : x ≡ a = ground arith in
        subst (λ b. first (λ y. key y == key b) (x ∷ xs) ≡ some b) same
          (ground (arith, eq_refl (key x)))
    | inr miss ↦
        ground (arith, eq_iff (key x) (key a), contains_of_first key q xs a, first-by_key q xs a)
  ]

  first-changed :
      (k : String) (f : A → A) (a : A) (o : Option A)
      → key a == k ≡ false
      → ((x : A) → o ≡ some x → key x == k ≡ true)
      → changed (λ x. if key x == key a then f x else x) o ≡ o
  first-changed k f a none ne h = refl
  first-changed k f a (some x) ne h =
      ground (arith, h x refl, eq_iff (key x) k, eq_iff (key x) (key a), ne)

  pub first-update_one :
      (q : A → Bool) (f : A → A) (xs : List A) (a : A) (k : String)
      → ((x : A) → key (f x) ≡ key x)
      → distinct (map key xs) ≡ true
      → first q xs ≡ some a
      → first (λ x. key x == k) (update (λ x. key x == key a) f xs)
        ≡ (if key a == k then some (f a) else first (λ x. key x == k) xs)
  first-update_one q f xs a k keep d h =
      let moved =
        first-update (λ x. key x == k) (λ x. key x == key a) f xs
          (λ x. ap (λ j. j == k) (keep x)) in
      elim (Bool-cases (key a == k)) [
        | inl hit ↦
            let at : first (λ x. key x == k) xs ≡ some a =
              subst (λ j. first (λ x. key x == j) xs ≡ some a) ((eq_iff (key a) k).0 hit)
                (first-by_key q xs a d h) in
            moved ∙ rw (at, hit) (ground (arith, eq_refl (key a)))
        | inr miss ↦
            moved
            ∙ first-changed k f a (first (λ x. key x == k) xs) miss
                (λ x e. first-true (λ x. key x == k) xs x e)
            ∙ sym (ap (λ b. if b then some (f a) else first (λ x. key x == k) xs) miss)
      ]

  pub first-none_of_absent :
      (k : String) (p : A → Bool) (xs : List A)
      → contains k (map key xs) ≡ false
      → first (λ x. key x == k && p x) xs ≡ none
  unfolding first contains
  first-none_of_absent k p [] h = refl
  first-none_of_absent k p (x ∷ xs) h = ground (arith, first-none_of_absent k p xs)

  pub distinct-concat :
      (xs : List A) (y : A)
      → distinct (map key xs) ≡ true
      → contains (key y) (map key xs) ≡ false
      → distinct (map key (xs ++ y ∷ [])) ≡ true
  unfolding distinct contains
  distinct-concat [] y d h = refl
  distinct-concat (x ∷ xs) y d h = ground (
    arith,
    contains-concat key (key x) xs y,
    eq_iff (key y) (key x),
    eq_iff (key x) (key y),
    distinct-concat xs y,
  )

  first-absent :
      (k : String) (xs : List A) (a : A)
      → contains k (map key xs) ≡ false
      → first (λ x. key x == k) xs ≡ none
  unfolding first contains
  first-absent k [] a h = refl
  first-absent k (x ∷ xs) a h = ground (arith, first-absent k xs a)

  pub first-insert_one :
      (xs : List A) (a : A) (k : String)
      → contains (key a) (map key xs) ≡ false
      → first (λ x. key x == k) (xs ++ a ∷ [])
        ≡ (if key a == k then some a else first (λ x. key x == k) xs)
  unfolding first
  first-insert_one xs a k free =
      let p : A → Bool = λ x. key x == k in
      first-append p xs (a ∷ []) ∙ elim (Bool-cases (key a == k)) [
        | inl hit ↦
            let absent =
              subst (λ j. contains j (map key xs) ≡ false) ((eq_iff (key a) k).0 hit) free in
            rw (first-absent k xs a absent, hit) refl
        | inr miss ↦ rw miss (same (first p xs))
      ]
    where
      same : (o : Option A) → (if is_none o then none else o) ≡ o
      same none = refl
      same (some x) = refl
