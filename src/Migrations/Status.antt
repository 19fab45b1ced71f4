-- ===== src/Migrations/Status.antt =====
-- What the status of a schema says, in terms of the revisions that Alembic gives.
use h4ckrth0n.Prelude.{
  ◌≡◌, refl, sym, ap, ◌∙◌, ◌↔◌, inl, inr, String, Bool, true, false, not, ◌&&◌, List, [], ◌∷◌, ◌==◌,
  arith, Bool-cases, contains, all, is_none, eq_iff, eq_refl,
}
use h4ckrth0n.Result.{ok}
use h4ckrth0n.Migrations.{
  Alembic, SchemaStatus, same_set, sorted, status_of, is_empty, normalize_db_url_for_sync,
  packaged_migrations_dir, get_schema_status,
}
use h4ckrth0n.Migrations.Order.{contains-sorted, is_empty-sorted, sorted-in_order, in_order}

-- The same revisions, in whatever order and however often.
abbrev pub SameRevisions : List String → List String → Type 0
SameRevisions xs ys = (r : String) → contains r xs ≡ contains r ys

contained : (xs ys : List String) → Bool
contained xs ys = all (λ x. contains x ys) xs

contained-mem :
    (xs ys : List String) (r : String)
    → contained xs ys ≡ true
    → contains r xs ≡ true
    → contains r ys ≡ true
unfolding contained all contains
contained-mem [] ys r a h = cc
contained-mem (x ∷ xs) ys r a h = elim (Bool-cases (x == r)) [
  | inl e ↦ let here : contains x ys ≡ true = ground (arith, a) in rw ((eq_iff x r).0 e) at here
  | inr e ↦ contained-mem xs ys r (ground (arith, a)) (ground (arith, h, e))
]

contained_intro :
    (xs ys : List String)
    → ((r : String) → contains r xs ≡ true → contains r ys ≡ true)
    → contained xs ys ≡ true
unfolding contained all contains
contained_intro [] ys f = refl
contained_intro (x ∷ xs) ys f =
    let here : contains x ys ≡ true = f x (rw (eq_refl x)) in
    let rest = contained_intro xs ys (λ r h. f r (ground (arith, h))) in rw (here, rest)

Bool-ext : (a b : Bool) → (a ≡ true → b ≡ true) → (b ≡ true → a ≡ true) → a ≡ b
Bool-ext true b f g = sym (f refl)
Bool-ext false true f g = g refl
Bool-ext false false f g = refl

-- The comparison of the two sets is the equality of the sets.
pub same_set_iff : (xs ys : List String) → (same_set xs ys ≡ true) ↔ SameRevisions xs ys
unfolding same_set contained
same_set_iff xs ys = (
  λ h r.
      Bool-ext (contains r xs) (contains r ys) (contained-mem xs ys r (ground (arith, h)))
        (contained-mem ys xs r (ground (arith, h))),
  λ f.
      let a = contained_intro xs ys (λ r h. sym (f r) ∙ h) in
      let b = contained_intro ys xs (λ r h. f r ∙ h) in rw (a, b),
)

-- What a status says of the two sets of revisions.
abbrev pub Says : List String → List String → SchemaStatus → Type 0
Says current heads s =
    ((s.state == "at_head" ≡ true) ↔ ((is_empty current ≡ false) × SameRevisions current heads))
    × ((s.state == "fresh" ≡ true) ↔ (is_empty current ≡ true))
    × ((is_none s.warning ≡ false)
        ↔ ((is_empty current ≡ false) × (SameRevisions current heads → ⊥)))

status_of-Says : (current heads : List String) → Says current heads (status_of current heads)
unfolding status_of
status_of-Says current heads = elim (Bool-cases (is_empty current)) [
  | inl e ↦
      rw e
        ((λ h. absurd cc, λ h. absurd cc), (λ h. refl, λ h. refl), (λ h. absurd cc, λ h. absurd cc))
  | inr e ↦ elim (Bool-cases (same_set current heads)) [
    | inl s ↦
        let same = (same_set_iff current heads).0 s in
        rw (e, s)
          (
            (λ h. (refl, same), λ h. refl),
            (λ h. absurd cc, λ h. absurd cc),
            (λ h. absurd cc, λ h. absurd (h.1 same)),
          )
    | inr s ↦
        let differ : SameRevisions current heads → ⊥ = λ f. cc ((same_set_iff current heads).1 f) in
        rw (e, s)
          (
            (λ h. absurd cc, λ h. absurd (differ h.1)),
            (λ h. absurd cc, λ h. absurd cc),
            (λ h. (refl, differ), λ h. refl),
          )
  ]
]

status_of-shows :
    (current heads : List String)
    → ((status_of current heads).current_revisions ≡ current)
      × ((status_of current heads).head_revisions ≡ heads)
unfolding status_of
status_of-shows current heads =
    elim (Bool-cases (not (is_empty current) && same_set current heads)) [
      | inl e ↦ rw e (refl, refl)
      | inr e ↦ elim (Bool-cases (is_empty current)) [
        | inl f ↦ rw (e, f) (refl, refl)
        | inr f ↦ rw (e, f) (refl, refl)
      ]
    ]

sorted-Same : (xs ys : List String) → SameRevisions (sorted xs) (sorted ys) ↔ SameRevisions xs ys
sorted-Same xs ys = (
  λ f r. sym (contains-sorted r xs) ∙ f r ∙ contains-sorted r ys,
  λ f r. contains-sorted r xs ∙ f r ∙ sym (contains-sorted r ys),
)

-- The order of the revisions does not matter to what a status says.
sorted-Says :
    (current heads : List String) (s : SchemaStatus)
    → Says (sorted current) (sorted heads) s
    → Says current heads s
sorted-Says current heads s ((a, a'), (b, b'), (c, c')) =
    let (out, back) = sorted-Same current heads in
    let same = is_empty-sorted current in
    (
      (λ h. let (x, y) = a h in (sym same ∙ x, out y), λ h. a' (same ∙ h.0, back h.1)),
      (λ h. sym same ∙ b h, λ h. b' (same ∙ h)),
      (
        λ h. let (x, y) = c h in (sym same ∙ x, λ f. y (back f)),
        λ h. c' (same ∙ h.0, λ f. h.1 (out f)),
      ),
    )

-- Where the packaged files are there and the database answers, a status is returned: it is "at_head"
-- exactly if the database names a revision and its revisions are those of the scripts as sets,
-- "fresh" exactly if it names none, and it warns exactly if it names some and the sets differ. The
-- revisions that it shows are in order, and are those of the database and of the scripts.
pub schema_status_decides :
    {W : Type 0} (lib : Alembic W) (db_url n : String) (heads current : List String) (w w' : W)
    → normalize_db_url_for_sync lib.urls db_url ≡ ok n
    → packaged_migrations_dir lib ≡ ok tt
    → lib.get_heads ≡ ok heads
    → lib.get_current_heads n w ≡ (ok current, w')
    → (s : SchemaStatus) × (get_schema_status lib db_url w ≡ (ok s, w'))
      × Says current heads s
      × (in_order s.current_revisions ≡ true)
      × SameRevisions s.current_revisions current
      × (in_order s.head_revisions ≡ true)
      × SameRevisions s.head_revisions heads
unfolding get_schema_status
schema_status_decides lib db_url n heads current w w' normal packaged scripts answered =
    let (shown, shown') = status_of-shows (sorted current) (sorted heads) in
    (
      status_of (sorted current) (sorted heads),
      rw (normal, packaged, scripts, answered),
      sorted-Says current heads (status_of (sorted current) (sorted heads))
          (status_of-Says (sorted current) (sorted heads)),
      rw shown (sorted-in_order current),
      λ r. ap (contains r) shown ∙ contains-sorted r current,
      rw shown' (sorted-in_order heads),
      λ r. ap (contains r) shown' ∙ contains-sorted r heads,
    )
