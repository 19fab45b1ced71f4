-- ===== src/Db/Session/Atomic.antt =====
-- Actions that raise before they commit: what was committed is as it was.
use h4ckrth0n.Prelude.{
  ◌≡◌, refl, subst, ◌∙◌, Bool, true, false, Bool-cases, ◌⊎◌, inl, inr, arith, Option, none, some,
}
use h4ckrth0n.Result.{Error, Result, ok, err}
use h4ckrth0n.Db.{Database, consistent}
use h4ckrth0n.Db.Session.{
  Session, Tx, continue, ◌>>=◌, pure, lift, query, found, guard, modify, flush, commit, rolled_back,
  or_rollback, opened, run,
}

-- An action that commits nothing.
pub record NoCommit {ℓ} {A : Type ℓ} (m : Tx A) : Type ℓ where
  pub at : (s : Session) → (m s).1.committed ≡ s.committed

-- What an action that raised has committed: nothing, unless it raised the one error `late` that may
-- come after its commit.
abbrev pub Untouched {ℓ} : {A : Type ℓ} → Option Error → Result A → Database → Database → Type 0
Untouched late (ok a) old new = Unit {0}
Untouched late (err e) old new = (new ≡ old) ⊎ (late ≡ some e)

pub record Atomic {ℓ} {A : Type ℓ} (late : Option Error) (m : Tx A) : Type ℓ where
  pub at : (s : Session) → Untouched late (m s).0 s.committed (m s).1.committed

-- An action that raises no other error than `late`.
abbrev pub OnlyLate {ℓ} : {A : Type ℓ} → Option Error → Result A → Type 0
OnlyLate late (ok a) = Unit {0}
OnlyLate late (err e) = late ≡ some e

pub record RaisesOnly {ℓ} {A : Type ℓ} (late : Option Error) (m : Tx A) : Type ℓ where
  pub at : (s : Session) → OnlyLate late (m s).0

Untouched-of_eq {ℓ} :
    {A : Type ℓ} (late : Option Error) (r : Result A) (old new : Database)
    → new ≡ old
    → Untouched late r old new
Untouched-of_eq late (ok a) old new h = tt
Untouched-of_eq late (err e) old new h = inl h

Untouched-of_late {ℓ} :
    {A : Type ℓ} (late : Option Error) (r : Result A) (old new : Database)
    → OnlyLate late r
    → Untouched late r old new
Untouched-of_late late (ok a) old new h = tt
Untouched-of_late late (err e) old new h = inr h

module _ {ℓ} {A : Type ℓ} where
  pub NoCommit-pure : (a : A) → NoCommit (pure a)
  unfolding pure
  NoCommit-pure a = record { at = λ s. refl }

  pub NoCommit-lift : (r : Result A) → NoCommit (lift r)
  unfolding lift
  NoCommit-lift r = record { at = λ s. refl }

  pub NoCommit-query : (f : Database → A) → NoCommit (query f)
  unfolding query
  NoCommit-query f = record { at = λ s. refl }

  pub NoCommit-found : (o : Option A) (e : Error) → NoCommit (found o e)
  unfolding found
  NoCommit-found none e = record { at = λ s. refl }
  NoCommit-found (some a) e = record { at = λ s. refl }

  pub RaisesOnly-pure : {late : Option Error} (a : A) → RaisesOnly late (pure a)
  unfolding pure
  RaisesOnly-pure a = record { at = λ s. tt }

  pub RaisesOnly-query : {late : Option Error} (f : Database → A) → RaisesOnly late (query f)
  unfolding query
  RaisesOnly-query f = record { at = λ s. tt }

  pub RaisesOnly-found : (o : Option A) (e : Error) → RaisesOnly (some e) (found o e)
  unfolding found
  RaisesOnly-found none e = record { at = λ s. refl }
  RaisesOnly-found (some a) e = record { at = λ s. tt }

  pub Atomic-NoCommit : {late : Option Error} (m : Tx A) → NoCommit m → Atomic late m
  Atomic-NoCommit {late} m k = record { at = λ s. Untouched-of_eq late (m s).0 _ _ (k.at s) }

  atomic_rolled_back :
      (late : Option Error) (r : Result A) (t : Session) (old : Database)
      → Untouched late r old t.committed
      → Untouched late (rolled_back r t).0 old (rolled_back r t).1.committed
  atomic_rolled_back late (ok a) t old h = tt
  atomic_rolled_back late (err e) t old h = h

  pub Atomic-or_rollback :
      {late : Option Error} (m : Tx A) → Atomic late m → Atomic late (or_rollback m)
  unfolding or_rollback
  Atomic-or_rollback {late} m k = record {
    at = λ s. let (r, t) = m s in atomic_rolled_back late r t s.committed (k.at s);
  }

pub NoCommit-guard : (b : Bool) (e : Error) → NoCommit (guard b e)
unfolding guard
NoCommit-guard true e = record { at = λ s. refl }
NoCommit-guard false e = record { at = λ s. refl }

pub NoCommit-modify : (f : Database → Database) → NoCommit (modify f)
unfolding modify
NoCommit-modify f = record { at = λ s. refl }

pub NoCommit-flush : NoCommit flush
unfolding flush
NoCommit-flush = record {
  at = λ s. elim (Bool-cases (consistent s.working)) [
    | inl e ↦ rw (e, flush) refl
    | inr e ↦ rw (e, flush) refl
  ];
}

pub Atomic-commit : {late : Option Error} → Atomic late commit
unfolding commit
Atomic-commit = record {
  at = λ s. elim (Bool-cases (consistent s.working)) [
    | inl e ↦ rw (e, commit) tt
    | inr e ↦ rw (e, commit) (inl refl)
  ];
}

module _ {ℓ κ} {A : Type ℓ} {B : Type κ} where
  NoCommit-continue :
      (r : Result A) (f : A → Tx B) (t : Session)
      → ((a : A) → NoCommit (f a))
      → (continue r f t).1.committed ≡ t.committed
  NoCommit-continue (ok a) f t k = (k a).at t
  NoCommit-continue (err e) f t k = refl

  pub NoCommit-bind :
      (m : Tx A) (f : A → Tx B) → NoCommit m → ((a : A) → NoCommit (f a)) → NoCommit (m >>= f)
  unfolding ◌>>=◌
  NoCommit-bind m f km kf = record {
    at = λ s. let (r, t) = m s in NoCommit-continue r f t kf ∙ km.at s;
  }

  Atomic-continue :
      (late : Option Error) (r : Result A) (f : A → Tx B) (t : Session) (old : Database)
      → t.committed ≡ old
      → ((a : A) → Atomic late (f a))
      → Untouched late (continue r f t).0 old (continue r f t).1.committed
  Atomic-continue late (ok a) f t old e k =
      subst (λ d. Untouched late (f a t).0 d (f a t).1.committed) e ((k a).at t)
  Atomic-continue late (err x) f t old e k = inl e

  -- What commits comes after steps that do not.
  pub Atomic-bind :
      {late : Option Error} (m : Tx A) (f : A → Tx B)
      → NoCommit m
      → ((a : A) → Atomic late (f a))
      → Atomic late (m >>= f)
  unfolding ◌>>=◌
  Atomic-bind {late} m f km kf = record {
    at = λ s. let (r, t) = m s in Atomic-continue late r f t s.committed (km.at s) kf;
  }

  only_continue :
      (late : Option Error) (r : Result A) (f : A → Tx B) (t : Session)
      → OnlyLate late r
      → ((a : A) → RaisesOnly late (f a))
      → OnlyLate late (continue r f t).0
  only_continue late (ok a) f t h k = (k a).at t
  only_continue late (err e) f t h k = h

  pub RaisesOnly-bind :
      {late : Option Error} (m : Tx A) (f : A → Tx B)
      → RaisesOnly late m
      → ((a : A) → RaisesOnly late (f a))
      → RaisesOnly late (m >>= f)
  unfolding ◌>>=◌
  RaisesOnly-bind {late} m f km kf = record {
    at = λ s. let (r, t) = m s in only_continue late r f t (km.at s) kf;
  }

  after_continue :
      (late : Option Error) (r : Result A) (f : A → Tx B) (t : Session) (old : Database)
      → Untouched late r old t.committed
      → ((a : A) → RaisesOnly late (f a))
      → Untouched late (continue r f t).0 old (continue r f t).1.committed
  after_continue late (ok a) f t old h k = Untouched-of_late late (f a t).0 _ _ ((k a).at t)
  after_continue late (err e) f t old h k = h

  -- After what commits comes only what raises nothing else than `late`.
  pub Atomic-then :
      {late : Option Error} (m : Tx A) (f : A → Tx B)
      → Atomic late m
      → ((a : A) → RaisesOnly late (f a))
      → Atomic late (m >>= f)
  unfolding ◌>>=◌
  Atomic-then {late} m f km kf = record {
    at = λ s. let (r, t) = m s in after_continue late r f t s.committed (km.at s) kf;
  }

Untouched-of_err {ℓ} :
    {A : Type ℓ} (late : Option Error) (r : Result A) (e : Error) (old new : Database)
    → r ≡ err e
    → Untouched late r old new
    → (new ≡ old) ⊎ (late ≡ some e)
Untouched-of_err late (ok a) e old new h k = absurd cc
Untouched-of_err late (err x) e old new h k = ground (arith, k)

-- A request that raises leaves the database as it was, or raised `late`.
pub Atomic-run {ℓ} :
    {A : Type ℓ} {late : Option Error} (m : Tx A) (db db' : Database) (e : Error)
    → Atomic late m
    → run m db ≡ (err e, db')
    → (db' ≡ db) ⊎ (late ≡ some e)
Atomic-run {late} m db db' e k h =
    subst (λ d. (d ≡ db) ⊎ (late ≡ some e)) (λ i. (h i).1)
      (Untouched-of_err late (m (opened db)).0 e db _ (λ i. (h i).0) (k.at (opened db)))

pub ruleset no_commit_rules = (
  NoCommit-pure, NoCommit-lift, NoCommit-query, NoCommit-found, NoCommit-guard, NoCommit-modify,
  NoCommit-flush, NoCommit-bind,
)

pub ruleset atomic_rules = (
  no_commit_rules, Atomic-NoCommit, Atomic-commit, Atomic-bind, Atomic-then, Atomic-or_rollback,
  RaisesOnly-pure, RaisesOnly-query, RaisesOnly-found, RaisesOnly-bind,
)
