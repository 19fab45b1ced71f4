-- ===== src/Db/Session/Keeps.antt =====
-- Invariants of the database under actions, one rule for each way to build an action.
use h4ckrth0n.Prelude.{◌≡◌, refl, Bool, true, false, Bool-cases, inl, inr, Option, none, some}
use h4ckrth0n.Result.{Error, Result, ok, err}
use h4ckrth0n.Db.{Database, consistent}
use h4ckrth0n.Db.Session.{
  Session, Tx, ◌>>=◌, ◌>>◌, pure, lift, query, found, guard, modify, flush, commit, rolled_back,
  or_rollback, opened, run,
}

-- What holds of the rows that a session sees and of those that are committed.
pub record Both (P : Database → Type 0) (s : Session) : Type 0 where
  pub seen : P s.working
  pub stored : P s.committed

-- An action keeps `P`, whether it returns or raises.
pub record Keeps {ℓ} {A : Type ℓ} (P : Database → Type 0) (m : Tx A) : Type ℓ where
  pub at : (s : Session) → Both P s → Both P (m s).1

module _ {ℓ} {A : Type ℓ} {P : Database → Type 0} where
  pub Keeps-pure : (a : A) → Keeps P (pure a)
  unfolding pure
  Keeps-pure a = record { at = λ s h. h }

  pub Keeps-lift : (outcome : Result A) → Keeps P (lift outcome)
  unfolding lift
  Keeps-lift outcome = record { at = λ session both. both }

  pub Keeps-query : (read : Database → A) → Keeps P (query read)
  unfolding query
  Keeps-query read = record { at = λ session both. both }

  pub Keeps-found : (o : Option A) (e : Error) → Keeps P (found o e)
  unfolding found
  Keeps-found none e = record { at = λ s h. h }
  Keeps-found (some a) e = record { at = λ s h. h }

  keeps_rolled_back : (r : Result A) (t : Session) → Both P t → Both P (rolled_back r t).1
  keeps_rolled_back (ok a) t h = h
  keeps_rolled_back (err e) t h = record { seen = h.stored; stored = h.stored }

  pub Keeps-or_rollback : (m : Tx A) → Keeps P m → Keeps P (or_rollback m)
  unfolding or_rollback
  Keeps-or_rollback m k = record {
    at = λ s h. let (r, t) = m s in keeps_rolled_back r t (k.at s h);
  }

module _ {P : Database → Type 0} where
  pub Keeps-guard : (b : Bool) (e : Error) → Keeps P (guard b e)
  unfolding guard
  Keeps-guard true e = record { at = λ s h. h }
  Keeps-guard false e = record { at = λ s h. h }

  pub Keeps-modify :
      (f : Database → Database) → ((db : Database) → P db → P (f db)) → Keeps P (modify f)
  unfolding modify
  Keeps-modify f k = record { at = λ s h. record { seen = k s.working h.seen; stored = h.stored } }

  pub Keeps-flush : Keeps P flush
  unfolding flush
  Keeps-flush = record {
    at = λ s h. elim (Bool-cases (consistent s.working)) [
      | inl e ↦ rw (e, flush) h
      | inr e ↦ rw (e, flush) (record { seen = h.stored; stored = h.stored })
    ];
  }

  pub Keeps-commit : Keeps P commit
  unfolding commit
  Keeps-commit = record {
    at = λ s h. elim (Bool-cases (consistent s.working)) [
      | inl e ↦ rw (e, commit) (record { seen = h.seen; stored = h.seen })
      | inr e ↦ rw (e, commit) (record { seen = h.stored; stored = h.stored })
    ];
  }

module _ {ℓ κ} {A : Type ℓ} {B : Type κ} {P : Database → Type 0} where
  Keeps-continue :
      (r : Result A) (f : A → Tx B) → ((a : A) → Keeps P (f a)) → Keeps P (lift r >>= f)
  unfolding ◌>>=◌
  Keeps-continue (ok a) f k = k a
  Keeps-continue (err e) f k = record { at = λ s h. h }

  -- A sequence: the rest is a step for every value that the start returns.
  pub Keeps-bind :
      (start : Tx A) (rest : A → Tx B)
      → Keeps P start
      → ((v : A) → Keeps P (rest v))
      → Keeps P (start >>= rest)
  unfolding ◌>>=◌
  Keeps-bind start rest kept later = record {
    at = λ before both.
        let (r, between) = start before in
        (Keeps-continue r rest later).at between (kept.at before both);
  }

-- The same from one session on, for a step whose proof uses what the steps before it found.
abbrev pub KeepsAt {ℓ} : {A : Type ℓ} → (Database → Type 0) → Tx A → Session → Type 0
KeepsAt P m s = Both P s → Both P (m s).1

module _ {ℓ κ} {A : Type ℓ} {B : Type κ} {P : Database → Type 0} where
  pub at_query :
      (g : Database → A) (f : A → Tx B) (s : Session)
      → KeepsAt P (f (g s.working)) s
      → KeepsAt P (query g >>= f) s
  unfolding ◌>>=◌
  at_query g f s k = k

  pub at_found :
      (o : Option A) (e : Error) (f : A → Tx B) (s : Session)
      → ((a : A) → o ≡ some a → KeepsAt P (f a) s)
      → KeepsAt P (found o e >>= f) s
  unfolding ◌>>=◌
  at_found none e f s k h = h
  at_found (some a) e f s k h = k a refl h

module _ {κ} {B : Type κ} {P : Database → Type 0} where
  pub at_guard :
      (t : Bool) (e : Error) (f : Unit {0} → Tx B) (s : Session)
      → (t ≡ true → KeepsAt P (f tt) s)
      → KeepsAt P (guard t e >>= f) s
  unfolding ◌>>=◌
  at_guard true e f s k h = k refl h
  at_guard false e f s k h = h

-- A change that is committed at once: it has to keep `P` only where the database accepts it.
pub at_change :
    {P : Database → Type 0} (g : Database → Database) (s : Session)
    → (consistent (g s.working) ≡ true → P s.working → P (g s.working))
    → KeepsAt P (modify g >> commit) s
unfolding ◌>>=◌ commit
at_change g s k h = elim (Bool-cases (consistent (g s.working))) [
  | inl e ↦ rw (e, commit) (record { seen = k e h.seen; stored = k e h.seen })
  | inr e ↦ rw (e, commit) (record { seen = h.stored; stored = h.stored })
]

pub at_change_then {κ} :
    {B : Type κ} {P : Database → Type 0} (g : Database → Database) (f : Unit {0} → Tx B)
    (s : Session)
    → (consistent (g s.working) ≡ true → P s.working → P (g s.working))
    → ((v : Unit {0}) → Keeps P (f v))
    → KeepsAt P (modify g >>= λ _. commit >>= f) s
unfolding ◌>>=◌ commit
at_change_then g f s k kf h = elim (Bool-cases (consistent (g s.working))) [
  | inl e ↦ rw (e, commit) ((kf tt).at _ (record { seen = k e h.seen; stored = k e h.seen }))
  | inr e ↦ rw (e, commit) (record { seen = h.stored; stored = h.stored })
]

-- A request on a database with `P` leaves one with `P`.
pub Keeps-run {ℓ} :
    {A : Type ℓ} {P : Database → Type 0} (m : Tx A) (db : Database)
    → Keeps P m
    → P db
    → P (run m db).1
Keeps-run m db k h = (k.at (opened db) (record { seen = h; stored = h })).stored

pub ruleset keeps_rules = (
  Keeps-pure, Keeps-lift, Keeps-query, Keeps-found, Keeps-guard, Keeps-flush, Keeps-commit,
  Keeps-bind,
)
