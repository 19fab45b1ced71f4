-- ===== src/Db/Session.antt =====
-- SQLAlchemy's session, as the services use it: reads see the session's own writes, `flush` sends
-- them to the database, which checks its keys, `commit` makes them last, and `rollback` drops them.
-- A request's session is closed at the end: what was not committed is lost, so a request leaves the
-- `committed` database behind. A refused flush or commit rolls the session back.
pub mod Laws
pub mod Keeps
pub mod Atomic
use h4ckrth0n.Prelude.{Bool, Option, none, some, if◌then◌else◌}
use h4ckrth0n.Result.{Error, Result, ok, err, integrity_error}
use h4ckrth0n.Db.{Database, consistent}

pub record Session : Type 0 where
  pub working : Database
  pub committed : Database

-- A session that a request opens on a database.
abbrev pub opened : Database → Session
opened db = record { working = db; committed = db }

-- An action: it returns or raises, and leaves a session either way.
abbrev pub Tx {ℓ} : Type ℓ → Type ℓ
Tx A = Session → Result A × Session

module _ {ℓ} {A : Type ℓ} where
  pub pure : A → Tx A
  pure a s = (ok a, s)

  pub raise : Error → Tx A
  raise e s = (err e, s)

  pub lift : Result A → Tx A
  lift r s = (r, s)

  -- `await db.execute(select(…))`
  pub query : (Database → A) → Tx A
  query f s = (ok (f s.working), s)

  -- `if (row := result.scalars().first()) is None: raise e`
  pub found : Option A → Error → Tx A
  found none e s = (err e, s)
  found (some a) e s = (ok a, s)

  -- `try: … except Exception: rollback; raise`
  abbrev pub rolled_back : Result A → Session → Result A × Session
  rolled_back (ok a) s = (ok a, s)
  rolled_back (err e) s = (err e, record s { working = s.committed })

  unfoldable pub or_rollback : Tx A → Tx A
  or_rollback m s = let (r, t) = m s in rolled_back r t

-- A test that raises unless it holds.
pub guard : Bool → Error → Tx (Unit {0})
guard b e s = if b then (ok tt, s) else (err e, s)

-- A new or changed row of the session.
pub modify : (Database → Database) → Tx (Unit {0})
modify f s = (ok tt, record s { working = f s.working })

pub flush : Tx (Unit {0})
flush s =
    if consistent s.working
    then (ok tt, s)
    else (err integrity_error, record s { working = s.committed })

unfoldable pub commit : Tx (Unit {0})
commit s =
    if consistent s.working
    then (ok tt, record s { committed = s.working })
    else (err integrity_error, record s { working = s.committed })

module _ {ℓ κ} {A : Type ℓ} {B : Type κ} where
  abbrev pub continue : Result A → (A → Tx B) → Session → Result B × Session
  continue (ok a) f s = f a s
  continue (err e) f s = (err e, s)

  infixl 5 ◌>>=◌
  -- To unfold it is to unfold the actions above, `commit` excepted.
  unfoldable pub ◌>>=◌ : Tx A → (A → Tx B) → Tx B
  unfolding pure raise lift query found guard modify flush
  ◌>>=◌ m f s = let (r, t) = m s in continue r f t

infixl 5 ◌>>◌
abbrev pub ◌>>◌ {ℓ} : {B : Type ℓ} → Tx (Unit {0}) → Tx B → Tx B
m >> k = m >>= λ _. k

-- What a request leaves behind.
abbrev pub run {ℓ} : {A : Type ℓ} → Tx A → Database → Result A × Database
run m db = let (r, s) = m (opened db) in (r, s.committed)
