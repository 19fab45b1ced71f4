-- ===== src/Prelude/Rows.antt =====
-- Laws of the queries and statements: what an update keeps, and what an insertion adds.
use Prim.Native.Nat.{◌+◌, ◌≤◌}
use Prim.Native.String.{String}
use mathlib.Core.Path.{◌≡◌, refl, ◌∙◌, subst}
use mathlib.Core.Logic.{inl, inr}
use mathlib.Core.Bool.{Bool, true, false, ◌&&◌, ◌||◌}
use mathlib.Core.Option.{Option, none, some}
use mathlib.Core.List.{List, [], ◌∷◌, ◌++◌, map}
use native.Mathlib.Omega.{arith}
use text.Mathlib.Text.{◌==◌}
use text.Mathlib.TextEquality.{eq_iff}
use text.Mathlib.TextPositions.{eq_refl}
use h4ckrth0n.Prelude.Tests.{if◌then◌else◌, is_none, Bool-cases}
use h4ckrth0n.Prelude.Lists.{first, select, count, update, contains, distinct}

-- The change of a row that a query found, `none` where it found none.
abbrev pub changed {ℓ} : {A : Type ℓ} → (A → A) → Option A → Option A
changed f none = none
changed f (some a) = some (f a)

module _ {ℓ} {A : Type ℓ} where
  -- A query by one condition after an update by another that keeps what the query asks.
  pub first-update :
      (p q : A → Bool) (f : A → A) (xs : List A)
      → ((x : A) → p (f x) ≡ p x)
      → first p (update q f xs) ≡ changed (λ x. if q x then f x else x) (first p xs)
  unfolding first update
  first-update p q f [] keep = refl
  first-update p q f (x ∷ xs) keep = ground (arith, keep x, first-update p q f xs keep)

  pub first-true : (p : A → Bool) (xs : List A) (a : A) → first p xs ≡ some a → p a ≡ true
  unfolding first
  first-true p [] a h = cc
  first-true p (x ∷ xs) a h = ground (arith, first-true p xs a)

  pub first-append :
      (p : A → Bool) (xs ys : List A)
      → first p (xs ++ ys) ≡ (if is_none (first p xs) then first p ys else first p xs)
  unfolding first
  first-append p [] ys = refl
  first-append p (x ∷ xs) ys = ground (arith, first-append p xs ys)

  pub count-append : (p : A → Bool) (xs ys : List A) → count p (xs ++ ys) ≡ count p xs + count p ys
  unfolding count
  count-append p [] ys = omega arith
  count-append p (x ∷ xs) ys = ground (arith, count-append p xs ys)

  -- An update that changes no key, and the keys of the rows.
  pub map-update {κ} :
      {B : Type κ} (k : A → B) (q : A → Bool) (f : A → A) (xs : List A)
      → ((x : A) → k (f x) ≡ k x)
      → map k (update q f xs) ≡ map k xs
  unfolding update
  map-update k q f [] keep = refl
  map-update k q f (x ∷ xs) keep = ground (arith, keep x, map-update k q f xs keep)

  -- An update that makes no row fit, a deletion and the rows that fit.
  pub count-update-le :
      (p q : A → Bool) (f : A → A) (xs : List A)
      → ((x : A) → p (f x) ≡ true → p x ≡ true)
      → count p (update q f xs) ≤ count p xs
  unfolding count update
  count-update-le p q f [] h = omega arith
  count-update-le p q f (x ∷ xs) h = ground (arith, h x, count-update-le p q f xs h)

  pub count-select-le : (p q : A → Bool) (xs : List A) → count p (select q xs) ≤ count p xs
  unfolding count select
  count-select-le p q [] = omega arith
  count-select-le p q (x ∷ xs) = ground (arith, count-select-le p q xs)

  pub count-update-eq :
      (p q : A → Bool) (f : A → A) (xs : List A)
      → ((x : A) → p (f x) ≡ p x)
      → count p (update q f xs) ≡ count p xs
  unfolding count update
  count-update-eq p q f [] h = refl
  count-update-eq p q f (x ∷ xs) h = ground (arith, h x, count-update-eq p q f xs h)

  -- An update of all the rows that fit, after which they do not.
  pub count-update-zero :
      (p q : A → Bool) (f : A → A) (xs : List A)
      → ((x : A) → p x ≡ true → q x ≡ true)
      → ((x : A) → q x ≡ true → p (f x) ≡ false)
      → count p (update q f xs) ≡ 0
  unfolding count update
  count-update-zero p q f [] h k = refl
  count-update-zero p q f (x ∷ xs) h k = ground (arith, h x, k x, count-update-zero p q f xs h k)

  pub first-none_of_count : (p : A → Bool) (xs : List A) → count p xs ≡ 0 → first p xs ≡ none
  unfolding count first
  first-none_of_count p [] h = refl
  first-none_of_count p (x ∷ xs) h = ground (arith, first-none_of_count p xs)

  -- Where no row fits both, the first row that fits the one does not fit the other.
  pub first-and_of_count :
      (p q : A → Bool) (xs : List A) (a : A)
      → count (λ x. p x && q x) xs ≡ 0
      → first p xs ≡ some a
      → q a ≡ false
  unfolding count first
  first-and_of_count p q [] a h e = cc
  first-and_of_count p q (x ∷ xs) a h e = ground (arith, first-and_of_count p q xs a)

  pub count-concat :
      (p : A → Bool) (xs : List A) (x : A)
      → count p (xs ++ x ∷ []) ≡ count p xs + (if p x then 1 else 0)
  unfolding count
  count-concat p xs x = count-append p xs (x ∷ []) ∙ ground arith

-- Rows with a key that no two of them share.
module _ {ℓ} {A : Type ℓ} (key : A → String) where
  pub contains_of_first :
      (q : A → Bool) (xs : List A) (a : A)
      → first q xs ≡ some a
      → contains (key a) (map key xs) ≡ true
  unfolding first contains
  contains_of_first q [] a h = cc
  contains_of_first q (x ∷ xs) a h =
      ground (arith, contains_of_first q xs a, eq_iff (key x) (key a))

  pub count-update_absent :
      (p : A → Bool) (k : String) (f : A → A) (xs : List A)
      → contains k (map key xs) ≡ false
      → count p (update (λ x. key x == k) f xs) ≡ count p xs
  unfolding count update contains
  count-update_absent p k f [] h = refl
  count-update_absent p k f (x ∷ xs) h = ground (arith, count-update_absent p k f xs)

  count-update_head :
      (p : A → Bool) (f : A → A) (xs : List A) (x : A)
      → distinct (map key (x ∷ xs)) ≡ true
      → count p (update (λ y. key y == key x) f (x ∷ xs)) + (if p x then 1 else 0)
        ≡ count p (x ∷ xs) + (if p (f x) then 1 else 0)
  unfolding count update distinct
  count-update_head p f xs x d = ground (arith, eq_refl (key x), count-update_absent p (key x) f xs)

  -- The update of one row by its key changes the count by that row alone.
  pub count-update_one :
      (p q : A → Bool) (f : A → A) (xs : List A) (a : A)
      → distinct (map key xs) ≡ true
      → first q xs ≡ some a
      → count p (update (λ x. key x == key a) f xs) + (if p a then 1 else 0)
        ≡ count p xs + (if p (f a) then 1 else 0)
  unfolding first count update distinct
  count-update_one p q f [] a d h = cc
  count-update_one p q f (x ∷ xs) a d h = elim (Bool-cases (q x)) [
    | inl hit ↦
        let e : some x ≡ some a = ground arith in
        subst
          (λ b.
            count p (update (λ y. key y == key b) f (x ∷ xs)) + (if p b then 1 else 0)
            ≡ count p (x ∷ xs) + (if p (f b) then 1 else 0))
          (ground arith) (count-update_head p f xs x d)
    | inr miss ↦
        ground
          (arith, eq_iff (key x) (key a), contains_of_first q xs a, count-update_one p q f xs a)
  ]

-- Rows with a key that no two of them share, and an insertion.
module _ {ℓ} {A : Type ℓ} (key : A → String) where
  pub contains-concat :
      (k : String) (xs : List A) (y : A)
      → contains k (map key (xs ++ y ∷ [])) ≡ (contains k (map key xs) || key y == k)
  unfolding contains
  contains-concat k [] y = ground arith
  contains-concat k (x ∷ xs) y = ground (arith, contains-concat k xs y)

  -- The key of a row that could be inserted was not there.
  pub contains_of_distinct :
      (xs : List A) (y : A)
      → distinct (map key (xs ++ y ∷ [])) ≡ true
      → contains (key y) (map key xs) ≡ false
  unfolding contains distinct
  contains_of_distinct [] y h = refl
  contains_of_distinct (x ∷ xs) y h = ground (
    arith,
    contains_of_distinct xs y,
    contains-concat (key x) xs y,
    eq_iff (key x) (key y),
    eq_iff (key y) (key x),
  )

  pub count_of_absent :
      (k : String) (q : A → Bool) (xs : List A)
      → contains k (map key xs) ≡ false
      → count (λ x. key x == k && q x) xs ≡ 0
  unfolding contains count
  count_of_absent k q [] h = refl
  count_of_absent k q (x ∷ xs) h = ground (arith, count_of_absent k q xs)

  -- One row at most has a given key.
  pub count-le-one :
      (k : String) (q : A → Bool) (xs : List A)
      → distinct (map key xs) ≡ true
      → count (λ x. key x == k && q x) xs ≤ 1
  unfolding distinct count
  count-le-one k q [] h = omega arith
  count-le-one k q (x ∷ xs) h = elim (Bool-cases (key x == k)) [
    | inl e ↦
        let absent : contains k (map key xs) ≡ false =
          subst (λ j. contains j (map key xs) ≡ false) ((eq_iff (key x) k).0 e)
            (ground (arith, h)) in
        ground (arith, count_of_absent k q xs absent)
    | inr e ↦ ground (arith, count-le-one k q xs)
  ]

module _ {ℓ} {A : Type ℓ} where
  -- A query by what a change of all rows keeps.
  pub first-map :
      (p : A → Bool) (g : A → A) (xs : List A)
      → ((x : A) → p (g x) ≡ p x)
      → first p (map g xs) ≡ changed g (first p xs)
  unfolding first
  first-map p g [] keep = refl
  first-map p g (x ∷ xs) keep = ground (arith, keep x, first-map p g xs keep)
