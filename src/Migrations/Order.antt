-- ===== src/Migrations/Order.antt =====
-- `sorted` puts the same texts in order.
use h4ckrth0n.Prelude.{
  ◌≡◌, refl, ap, ◌∙◌, inl, inr, String, Bool, true, false, ◌&&◌, ◌||◌, List, [], ◌∷◌, ◌==◌, arith,
  Bool-cases, contains,
}
use h4ckrth0n.Migrations.{text_leb, insert, sorted, is_empty}

or_swap : (a b c : Bool) → (a || (b || c)) ≡ (b || (a || c))
or_swap true true c = refl
or_swap true false c = refl
or_swap false b c = refl

contains-insert :
    (r x : String) (l : List String) → contains r (insert x l) ≡ (x == r || contains r l)
unfolding contains insert
contains-insert r x [] = refl
contains-insert r x (y ∷ ys) = elim (Bool-cases (text_leb x y)) [
  | inl e ↦ rw e
  | inr e ↦ rw (e, contains-insert r x ys) (or_swap (y == r) (x == r) (contains r ys))
]

pub contains-sorted : (r : String) (l : List String) → contains r (sorted l) ≡ contains r l
unfolding contains sorted
contains-sorted r [] = refl
contains-sorted r (x ∷ xs) =
    contains-insert r x (sorted xs) ∙ ap (λ b. x == r || b) (contains-sorted r xs)

is_empty-insert : (x : String) (l : List String) → is_empty (insert x l) ≡ false
unfolding insert
is_empty-insert x [] = refl
is_empty-insert x (y ∷ ys) = elim (Bool-cases (text_leb x y)) [ inl e ↦ rw e | inr e ↦ rw e ]

pub is_empty-sorted : (l : List String) → is_empty (sorted l) ≡ is_empty l
unfolding sorted
is_empty-sorted [] = refl
is_empty-sorted (x ∷ xs) = is_empty-insert x (sorted xs)

-- Neighbours are in order.
unfoldable pub in_order : List String → Bool
in_order [] = true
in_order (x ∷ []) = true
in_order (x ∷ y ∷ l) = text_leb x y && in_order (y ∷ l)

text_leb_total : (s t : String) → text_leb s t ≡ false → text_leb t s ≡ true
unfolding text_leb
text_leb_total String.[] t h = cc
text_leb_total (String.◌∷◌ c s) String.[] h = refl
text_leb_total (String.◌∷◌ c s) (String.◌∷◌ d t) h =
    let rest = text_leb_total s t in ground (arith, h, rest)

insert-in_order : (x : String) (l : List String) → in_order l ≡ true → in_order (insert x l) ≡ true
unfolding in_order insert
insert-in_order x [] h = refl
insert-in_order x (y ∷ []) h = elim (Bool-cases (text_leb x y)) [
  | inl e ↦ rw (e, e)
  | inr e ↦ rw (e, text_leb_total x y e)
]
insert-in_order x (y ∷ z ∷ l) h =
    let le : text_leb y z ≡ true = ground (arith, h) in
    let rest = insert-in_order x (z ∷ l) (ground (arith, h)) in
    elim (Bool-cases (text_leb x y)) [
      | inl e ↦ rw (e, e) h
      | inr e ↦ elim (Bool-cases (text_leb x z)) [
        | inl f ↦ rw (e, f, text_leb_total x y e) (ground (arith, f, h))
        | inr f ↦ rw (e, f, le) (let r : in_order (z ∷ insert x l) ≡ true = rw f at rest in r)
      ]
    ]

pub sorted-in_order : (l : List String) → in_order (sorted l) ≡ true
unfolding in_order sorted
sorted-in_order [] = refl
sorted-in_order (x ∷ xs) = insert-in_order x (sorted xs) (sorted-in_order xs)
