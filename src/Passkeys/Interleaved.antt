-- ===== src/Passkeys/Interleaved.antt =====
-- `revoke_passkey` of src/h4ckath0n/auth/passkeys/service.py, statement by statement: revocations that
-- run at once, with the lock of the user's row, on a database that other requests change between the
-- statements. A statement reads what is committed when it starts. `locks` is false where the database
-- ignores FOR UPDATE, as SQLite does.
pub mod Invariant
pub mod Steps
pub mod Turns
pub mod Remains
pub mod Serial
pub mod Ends
pub mod Released
use h4ckrth0n.Prelude.{
  ℕ, String, Bool, ◌&&◌, Option, none, some, List, [], ◌∷◌, ◌==◌, leb, eqb, is_none, if◌then◌else◌,
  first, count,
}
use h4ckrth0n.Models.{Time, User, WebAuthnCredential}
use h4ckrth0n.Result.{Result, ok, err, value_error, last_passkey_error, integrity_error}
use h4ckrth0n.Db.{Database, consistent}
use h4ckrth0n.Passkeys.Ceremonies.{is_active, record_use, add_credential}
use h4ckrth0n.Passkeys.Management.{set_name, set_revoked}
use h4ckrth0n.Passkeys.Management.LastPasskey.{names}

-- Where a revocation stands: before the lock; after it; after the row was read and checked; after the
-- active passkeys were counted; and at its end.
pub data Stage : Type 0 where
  waiting locked : Stage
  checked counted : WebAuthnCredential → Stage
  finished : Result (Unit {0}) → Stage

abbrev pub is_finished : Stage → Bool
is_finished (finished r) = Bool.true
is_finished s = Bool.false

pub record Task : Type 0 where
  pub user : User
  pub key_id : String
  pub now : Time
  pub stage : Stage

-- The committed database, who holds the lock of a user's row, and the revocations.
pub record World : Type 0 where
  pub db : Database
  pub holder : String → Option ℕ
  pub task : ℕ → Task

abbrev pub set_holder : String → Option ℕ → (String → Option ℕ) → String → Option ℕ
set_holder user_id value holder u = if u == user_id then value else holder u

abbrev pub set_stage : ℕ → Stage → (ℕ → Task) → ℕ → Task
set_stage i stage task j = if eqb j i then record (task j) { stage = stage } else task j

abbrev pub at_stage : ℕ → Stage → World → World
at_stage i stage w = record w { task = set_stage i stage w.task }

-- The commit or the rollback releases the lock.
abbrev pub finish : ℕ → Result (Unit {0}) → World → World
finish i r w = record w {
  holder = set_holder (w.task i).user.id none w.holder;
  task = set_stage i (finished r) w.task;
}

unfoldable pub take_lock : Bool → ℕ → World → World
take_lock locks i w =
    let user_id = (w.task i).user.id in
    if is_none (w.holder user_id)
    then record w {
      holder = set_holder user_id (some i) w.holder;
      task = set_stage i locked w.task;
    }
    else if locks
    then w
    else at_stage i locked w

unfoldable pub check_row : ℕ → Option WebAuthnCredential → World → World
check_row i none w = finish i (err (value_error "Credential not found")) w
check_row i (some cred) w =
    if is_none cred.revoked_at
    then at_stage i (checked cred) w
    else finish i (err (value_error "Credential already revoked")) w

unfoldable pub count_active : ℕ → WebAuthnCredential → World → World
count_active i cred w =
    if leb (count (is_active (w.task i).user.id) w.db.credentials) 1
    then finish i (err last_passkey_error) w
    else at_stage i (counted cred) w

unfoldable pub write_revoked : ℕ → WebAuthnCredential → World → World
write_revoked i cred w =
    let db = set_revoked (w.task i).now cred w.db in
    if consistent db
    then finish i (ok tt) (record w { db = db })
    else finish i (err integrity_error) w

-- The next statement of a revocation.
unfoldable pub advance_from : Bool → ℕ → Stage → World → World
advance_from locks i waiting w = take_lock locks i w
advance_from locks i locked w =
    check_row i (first (names (w.task i).user (w.task i).key_id) w.db.credentials) w
advance_from locks i (checked cred) w = count_active i cred w
advance_from locks i (counted cred) w = write_revoked i cred w
advance_from locks i (finished r) w = w

unfoldable pub advance : Bool → ℕ → World → World
advance locks i w = advance_from locks i (w.task i).stage w

-- What happens next: a revocation goes on, or another request commits a new passkey, a new name, or
-- the use of a passkey in a login. The database refuses a change that breaks its keys.
pub data Event : Type 0 where
  turn : ℕ → Event
  adds : WebAuthnCredential → Event
  renames : Option String → WebAuthnCredential → Event
  logs_in : ℕ → Time → WebAuthnCredential → Event

abbrev pub committed : Database → World → World
committed db w = if consistent db then record w { db = db } else w

unfoldable pub happen : Bool → Event → World → World
unfolding advance
happen locks (turn i) w = advance locks i w
happen locks (adds c) w = committed (add_credential c w.db) w
happen locks (renames name c) w = committed (set_name name c w.db) w
happen locks (logs_in n now c) w = committed (record_use n now c w.db) w

unfoldable pub play : Bool → List Event → World → World
play locks [] w = w
play locks (event ∷ events) w = play locks events (happen locks event w)
