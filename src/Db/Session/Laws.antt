-- ===== src/Db/Session/Laws.antt =====
-- Inversion of actions that return: what the first step returned is handed to the rest, one rule for
-- each way to build an action.
use h4ckrth0n.Prelude.{◌≡◌, refl, sym, Bool, true, false, Option, none, some, Bool-cases, inl, inr}
use h4ckrth0n.Result.{Error, Result, ok, err}
use h4ckrth0n.Db.{Database, consistent}
use h4ckrth0n.Db.Session.{
  Session, Tx, continue, ◌>>=◌, lift, query, found, guard, modify, flush, commit, pure, opened, run,
  rolled_back, or_rollback,
}

-- An action that returns `b` and leaves `u`.
abbrev pub Returns {ℓ} : {A : Type ℓ} → Result A × Session → A → Session → Type ℓ
Returns r a u = r ≡ (ok a, u)

module _ {ℓ κ μ} {A : Type ℓ} {B : Type κ} {C : Type μ} where
  of_continue :
      (r : Result A) (f : A → Tx B) (t : Session) {b : B} {u : Session}
      → Returns (continue r f t) b u
      → ((a : A) → r ≡ ok a → Returns (f a t) b u → C)
      → C
  of_continue (ok a) f t h k = k a refl h
  of_continue (err e) f t h k = absurd cc

  pub of_bind :
      (m : Tx A) (f : A → Tx B) (s : Session) {b : B} {u : Session}
      → Returns ((m >>= f) s) b u
      → ((a : A) (t : Session) → Returns (m s) a t → Returns (f a t) b u → C)
      → C
  unfolding ◌>>=◌
  of_bind m f s h k = let (r, t) = m s in of_continue r f t h (λ a e g. k a t (λ i. (e i, t)) g)

  pub of_lift :
      (r : Result A) (f : A → Tx B) (s : Session) {b : B} {u : Session}
      → Returns ((lift r >>= f) s) b u
      → ((a : A) → r ≡ ok a → Returns (f a s) b u → C)
      → C
  unfolding ◌>>=◌
  of_lift r f s h k = of_continue r f s h k

  pub of_query :
      (g : Database → A) (f : A → Tx B) (s : Session) {b : B} {u : Session}
      → Returns ((query g >>= f) s) b u
      → (Returns (f (g s.working) s) b u → C)
      → C
  unfolding ◌>>=◌
  of_query g f s h k = k h

  pub of_found :
      (o : Option A) (e : Error) (f : A → Tx B) (s : Session) {b : B} {u : Session}
      → Returns ((found o e >>= f) s) b u
      → ((a : A) → o ≡ some a → Returns (f a s) b u → C)
      → C
  unfolding ◌>>=◌
  of_found none e f s h k = absurd cc
  of_found (some a) e f s h k = k a refl h

module _ {κ μ} {B : Type κ} {C : Type μ} where
  pub of_guard :
      (t : Bool) (e : Error) (f : Unit {0} → Tx B) (s : Session) {b : B} {u : Session}
      → Returns ((guard t e >>= f) s) b u
      → (t ≡ true → Returns (f tt s) b u → C)
      → C
  unfolding ◌>>=◌
  of_guard true e f s h k = k refl h
  of_guard false e f s h k = absurd cc

  pub of_modify :
      (g : Database → Database) (f : Unit {0} → Tx B) (s : Session) {b : B} {u : Session}
      → Returns ((modify g >>= f) s) b u
      → (Returns (f tt (record s { working = g s.working })) b u → C)
      → C
  unfolding ◌>>=◌
  of_modify g f s h k = k h

  pub of_flush :
      (f : Unit {0} → Tx B) (s : Session) {b : B} {u : Session}
      → Returns ((flush >>= f) s) b u
      → (consistent s.working ≡ true → Returns (f tt s) b u → C)
      → C
  unfolding ◌>>=◌
  of_flush f s h k = elim (Bool-cases (consistent s.working)) [
    | inl e ↦ k e (rw (e, flush) at h)
    | inr e ↦ absurd (let g = rw (e, flush) at h in cc)
  ]

  pub of_commit :
      (f : Unit {0} → Tx B) (s : Session) {b : B} {u : Session}
      → Returns ((commit >>= f) s) b u
      → (consistent s.working ≡ true → Returns (f tt (record s { committed = s.working })) b u → C)
      → C
  unfolding ◌>>=◌ commit
  of_commit f s h k = elim (Bool-cases (consistent s.working)) [
    | inl e ↦ k e (rw (e, commit) at h)
    | inr e ↦ absurd (let g = rw (e, commit) at h in cc)
  ]

module _ {ℓ} {A : Type ℓ} where
  ok_of : A → Result A → A
  ok_of a (ok b) = b
  ok_of a (err e) = a

  -- The last step of an action that returns.
  pub pure-ok :
      (a : A) (s : Session) {b : A} {u : Session} → Returns (pure a s) b u → (b ≡ a) × (u ≡ s)
  unfolding pure ok_of
  pure-ok a s h = (λ i. ok_of a (sym h i).0, λ i. (sym h i).1)

  pub found-ok :
      (o : Option A) (e : Error) (s : Session) {b : A} {u : Session}
      → Returns (found o e s) b u
      → (o ≡ some b) × (u ≡ s)
  unfolding found ok_of
  found-ok none e s h = absurd cc
  found-ok (some a) e s h = (λ i. some (ok_of a (h i).0), λ i. (sym h i).1)

-- What a run returns is what the action returns in the session that it opens.
pub run-Returns {ℓ} :
    {A : Type ℓ} (m : Tx A) (db db' : Database) (a : A)
    → run m db ≡ (ok a, db')
    → (u : Session) × Returns (m (opened db)) a u × (u.committed ≡ db')
run-Returns m db db' a h = ((m (opened db)).1, λ i. ((h i).0, (m (opened db)).1), λ i. (h i).1)

-- A guarded action returns what it returned, and raises with nothing of it left.
module _ {ℓ} {A : Type ℓ} where
  rolled_back-ok :
      (r : Result A) (t : Session) {a : A} {u : Session}
      → Returns (rolled_back r t) a u
      → Returns (r, t) a u
  rolled_back-ok (ok a) t h = h
  rolled_back-ok (err e) t h = absurd cc

  pub or_rollback-ok :
      (m : Tx A) (s : Session) {a : A} {u : Session}
      → Returns (or_rollback m s) a u
      → Returns (m s) a u
  unfolding or_rollback
  or_rollback-ok m s h = let (r, t) = m s in rolled_back-ok r t h

-- A last step that commits.
pub commit-ok :
    (s : Session) {v : Unit {0}} {u : Session}
    → Returns (commit s) v u
    → (consistent s.working ≡ true) × (u ≡ opened s.working)
unfolding commit
commit-ok s h = elim (Bool-cases (consistent s.working)) [
  | inl e ↦ (e, let g = rw (e, commit) at h in λ i. (sym g i).1)
  | inr e ↦ absurd (let g = rw (e, commit) at h in cc)
]
