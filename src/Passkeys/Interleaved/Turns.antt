-- ===== src/Passkeys/Interleaved/Turns.antt =====
-- Every event keeps every revocation ready: the lock keeps two revocations of one user apart.
use h4ckrth0n.Prelude.{
  ℕ, ◌≡◌, ◌≢◌, sym, ap, subst, ◌∙◌, String, true, Option, none, some, eqb, eq_iff, if◌then◌else◌,
  arith, Bool-cases, inl, inr,
}
use h4ckrth0n.Result.{Result}
use h4ckrth0n.Db.{Database, consistent}
use h4ckrth0n.Passkeys.Interleaved.{
  Stage, waiting, locked, checked, counted, finished, Task, World, set_holder, set_stage, at_stage,
  finish, committed,
}
use h4ckrth0n.Passkeys.Interleaved.Invariant.{ReadyAt, Guarded, Keeps, ReadyAt-stays}

-- What is asked of a stage does not look at the stage that the revocation stands at.
ReadyAt-restaged :
    (db : Database) (holder : String → Option ℕ) (i : ℕ) (t : Task) (s' s : Stage)
    → ReadyAt db holder i t s
    → ReadyAt db holder i (record t { stage = s' }) s
ReadyAt-restaged db holder i t s' waiting r = r
ReadyAt-restaged db holder i t s' locked r = r
ReadyAt-restaged db holder i t s' (checked c) r = r
ReadyAt-restaged db holder i t s' (counted c) r = r
ReadyAt-restaged db holder i t s' (finished o) r = r

set_stage-ReadyAt :
    (db : Database) (holder : String → Option ℕ) (i : ℕ) (s : Stage) (task : ℕ → Task)
    → ReadyAt db holder i (task i) s
    → ((j : ℕ) → j ≢ i → ReadyAt db holder j (task j) (task j).stage)
    → (j : ℕ) → ReadyAt db holder j (set_stage i s task j) (set_stage i s task j).stage
set_stage-ReadyAt db holder i s task own others j =
    let At : ℕ → Task → Type 0 = λ n t. ReadyAt db holder n t t.stage in
    elim (Bool-cases (eqb j i)) [
      | inl hit ↦
          let e : j ≡ i = ground arith in
          subst (λ b. At j (if b then record (task j) { stage = s } else task j)) (sym hit)
            (subst (λ n. At n (record (task n) { stage = s })) (sym e)
              (ReadyAt-restaged db holder i (task i) s s own))
      | inr miss ↦
          subst (λ b. At j (if b then record (task j) { stage = s } else task j)) (sym miss)
            (others j (ground arith))
    ]

set_holder-other :
    (user_id other : String) (value : Option ℕ) (holder : String → Option ℕ)
    → other ≢ user_id
    → set_holder user_id value holder other ≡ holder other
set_holder-other user_id other value holder ne = ground (arith, eq_iff other user_id)

pub set_holder-own :
    (user_id : String) (value : Option ℕ) (holder : String → Option ℕ)
    → set_holder user_id value holder user_id ≡ value
set_holder-own user_id value holder = ground (arith, eq_iff user_id user_id)

-- A statement that leaves the database and the locks as they are.
pub at_stage-Guarded :
    (i : ℕ) (s : Stage) (w : World)
    → ReadyAt w.db w.holder i (w.task i) s
    → Guarded w
    → Guarded (at_stage i s w)
at_stage-Guarded i s w own g = record {
  keys = g.keys;
  ready = set_stage-ReadyAt w.db w.holder i s w.task own (λ j ne. g.ready j);
}

-- A statement that takes or releases the lock of a user's row, and may commit.
pub moved-Guarded :
    (i : ℕ) (s : Stage) (user_id : String) (value : Option ℕ) (db : Database) (w : World)
    → consistent db ≡ true
    → ((j : ℕ) → j ≢ i → w.holder (w.task j).user.id ≡ some j → (w.task j).user.id ≢ user_id)
    → ((other : String) → other ≢ user_id → Keeps other w.db db)
    → ReadyAt db (set_holder user_id value w.holder) i (w.task i) s
    → Guarded w
    → Guarded (record w {
      db = db;
      holder = set_holder user_id value w.holder;
      task = set_stage i s w.task;
    })
moved-Guarded i s user_id value db w keys apart keep own g = record {
  keys = keys;
  ready = set_stage-ReadyAt db (set_holder user_id value w.holder) i s w.task own (λ j ne.
      ReadyAt-stays w.db db w.holder (set_holder user_id value w.holder) j (w.task j)
        (w.task j).stage
        (λ h.
          let ne' = apart j ne h in
          (
            set_holder-other user_id (w.task j).user.id value w.holder ne' ∙ h,
            keep (w.task j).user.id ne',
          ))
        (g.ready j));
}

pub Keeps-refl : (user_id : String) (db : Database) → Keeps user_id db db
Keeps-refl user_id db = (λ key. omega arith, omega arith)

one_holder : {i j : ℕ} → some j ≡ some i → j ≡ i
one_holder h = cc

-- The end of a revocation that holds its lock.
pub finish-Guarded :
    (i : ℕ) (r : Result (Unit {0})) (db : Database) (w : World)
    → w.holder (w.task i).user.id ≡ some i
    → consistent db ≡ true
    → ((other : String) → other ≢ (w.task i).user.id → Keeps other w.db db)
    → Guarded w
    → Guarded (finish i r (record w { db = db }))
finish-Guarded i r db w holds keys keep g =
    moved-Guarded i (finished r) (w.task i).user.id none db w keys
      (λ j ne h e. ne (one_holder (sym h ∙ ap w.holder e ∙ holds))) keep tt g

-- A commit of another request.
pub committed-Guarded :
    (db : Database) (w : World)
    → ((user_id : String) → Keeps user_id w.db db)
    → Guarded w
    → Guarded (committed db w)
committed-Guarded db w keep g = elim (Bool-cases (consistent db)) [
  | inl keys ↦
      subst (λ b. Guarded (if b then record w { db = db } else w)) (sym keys)
        (record {
          keys = keys;
          ready = λ j.
              ReadyAt-stays w.db db w.holder w.holder j (w.task j) (w.task j).stage
                (λ h. (h, keep (w.task j).user.id)) (g.ready j);
        })
  | inr broken ↦ subst (λ b. Guarded (if b then record w { db = db } else w)) (sym broken) g
]
