-- ===== src/Passkeys/Interleaved/Serial.antt =====
-- A revocation among others ends as one that runs alone: its last statement is the moment at which
-- `revoke_passkey` of `Passkeys.Management` runs as a whole.
use h4ckrth0n.Prelude.{
  ℕ, ◌≡◌, refl, sym, ap, subst, ◌∙◌, Bool, true, false, Option, none, some, List, ltb, leb, is_none,
  if◌then◌else◌, first, count, arith,
}
use h4ckrth0n.Models.{WebAuthnCredential}
use h4ckrth0n.Result.{ok, err, last_passkey_error}
use h4ckrth0n.Db.{Database, consistent}
use h4ckrth0n.Db.Session.{run}
use h4ckrth0n.Passkeys.Ceremonies.{is_active}
use h4ckrth0n.Passkeys.Management.{revoke_passkey, set_revoked}
use h4ckrth0n.Passkeys.Management.LastPasskey.{
  names, revoke_active_passkey, revoke_missing, revoke_revoked, consistent-set_revoked,
}
use h4ckrth0n.Passkeys.Interleaved.{
  Stage, waiting, locked, checked, counted, finished, is_finished, Task, World, set_stage,
  take_lock, check_row, count_active, write_revoked, advance_from, advance, Event, play,
}
use h4ckrth0n.Passkeys.Interleaved.Invariant.{ReadyAt}
use h4ckrth0n.Passkeys.Interleaved.Steps.{row_of}
use h4ckrth0n.Passkeys.Interleaved.Remains.{AllWait, play-Guarded}

-- A statement that ends a revocation leaves what the whole revocation leaves that runs alone on the
-- database of that moment; another statement leaves the database.
abbrev pub EndsAlone : Task → Database → Database → Stage → Type 0
EndsAlone t db db' waiting = db' ≡ db
EndsAlone t db db' locked = db' ≡ db
EndsAlone t db db' (checked c) = db' ≡ db
EndsAlone t db db' (counted c) = db' ≡ db
EndsAlone t db db' (finished r) = run (revoke_passkey t.now t.user t.key_id) db ≡ (r, db')

abbrev Alone : ℕ → World → World → Type 0
Alone i w w' = EndsAlone (w.task i) w.db w'.db (w'.task i).stage

set_stage-own : (i : ℕ) (s : Stage) (task : ℕ → Task) → (set_stage i s task i).stage ≡ s
set_stage-own i s task = ground arith

-- A statement that leaves the revocation `i` at a stage.
to_stage :
    (i : ℕ) (s : Stage) (w : World) (db : Database)
    → EndsAlone (w.task i) w.db db s
    → EndsAlone (w.task i) w.db db (set_stage i s w.task i).stage
to_stage i s w db h = subst (EndsAlone (w.task i) w.db db) (sym (set_stage-own i s w.task)) h

if-Alone :
    (i : ℕ) (b : Bool) (w x y : World)
    → (b ≡ true → Alone i w x)
    → (b ≡ false → Alone i w y)
    → Alone i w (if b then x else y)
if-Alone i true w x y h k = h refl
if-Alone i false w x y h k = k refl

take_lock-Alone : (i : ℕ) (w : World) → (w.task i).stage ≡ waiting → Alone i w (take_lock true i w)
unfolding take_lock
take_lock-Alone i w at =
    if-Alone i (is_none (w.holder (w.task i).user.id)) w _ _ (λ free. to_stage i locked w w.db refl)
      (λ taken. subst (EndsAlone (w.task i) w.db w.db) (sym at) refl)

check_row-Alone :
    (i : ℕ) (row : Option WebAuthnCredential) (w : World)
    → first (names (w.task i).user (w.task i).key_id) w.db.credentials ≡ row
    → Alone i w (check_row i row w)
unfolding check_row
check_row-Alone i none w e =
    to_stage i (finished _) w w.db
      (revoke_missing (w.task i).now (w.task i).user (w.task i).key_id w.db e)
check_row-Alone i (some cred) w e =
    if-Alone i (is_none cred.revoked_at) w _ _ (λ active. to_stage i (checked cred) w w.db refl)
      (λ revoked.
        to_stage i (finished _) w w.db
          (revoke_revoked (w.task i).now (w.task i).user (w.task i).key_id w.db cred e revoked))

-- What the revocation alone does where the invariant of the lock holds.
alone :
    (i : ℕ) (c : WebAuthnCredential) (w : World)
    → ReadyAt w.db w.holder i (w.task i) (checked c)
    → consistent w.db ≡ true
    → run (revoke_passkey (w.task i).now (w.task i).user (w.task i).key_id) w.db ≡ (
        if ltb 1 (count (is_active (w.task i).user.id) w.db.credentials)
        then (ok tt, set_revoked (w.task i).now c w.db)
        else (err last_passkey_error, w.db))
alone i c w (holds, same, n) keys =
    let t = w.task i in
    let (x, chosen, active, e, own, one) = row_of t.now t.user t.key_id c w.db keys same n in
    revoke_active_passkey t.now t.user t.key_id w.db x keys chosen active
    ∙ ap
        (λ d.
          if ltb 1 (count (is_active t.user.id) w.db.credentials)
          then (ok tt, d)
          else (err last_passkey_error, w.db))
        (sym one)

count_active-Alone :
    (i : ℕ) (c : WebAuthnCredential) (w : World)
    → ReadyAt w.db w.holder i (w.task i) (checked c)
    → consistent w.db ≡ true
    → Alone i w (count_active i c w)
unfolding count_active
count_active-Alone i c w own keys =
    if-Alone i (leb (count (is_active (w.task i).user.id) w.db.credentials) 1) w _ _
      (λ last.
        to_stage i (finished (err last_passkey_error)) w w.db
          (ground (arith, alone i c w own keys, last)))
      (λ more. to_stage i (counted c) w w.db refl)

write_revoked-Alone :
    (i : ℕ) (c : WebAuthnCredential) (w : World)
    → ReadyAt w.db w.holder i (w.task i) (counted c)
    → consistent w.db ≡ true
    → Alone i w (write_revoked i c w)
unfolding write_revoked
write_revoked-Alone i c w (own, more) keys =
    if-Alone i (consistent (set_revoked (w.task i).now c w.db)) w _ _
      (λ kept.
        to_stage i (finished (ok tt)) w (set_revoked (w.task i).now c w.db)
          (ground (arith, alone i c w own keys, more)))
      (λ broken.
        absurd (ground (arith, consistent-set_revoked (w.task i).now c w.db, broken, keys)))

advance_from-Alone :
    (i : ℕ) (s : Stage) (w : World)
    → (w.task i).stage ≡ s
    → is_finished s ≡ false
    → ReadyAt w.db w.holder i (w.task i) s
    → consistent w.db ≡ true
    → Alone i w (advance_from true i s w)
unfolding advance_from
advance_from-Alone i waiting w at f own keys = take_lock-Alone i w at
advance_from-Alone i locked w at f own keys = check_row-Alone i _ w refl
advance_from-Alone i (checked c) w at f own keys = count_active-Alone i c w own keys
advance_from-Alone i (counted c) w at f own keys = write_revoked-Alone i c w own keys
advance_from-Alone i (finished r) w at f own keys = absurd cc

-- Where the database keeps the lock, and after any events: the next statement of a revocation that has
-- not ended leaves the database, unless it ends the revocation; and then the revocation returns or
-- raises, and leaves, what `revoke_passkey` does that runs alone on the database of that moment.
pub revocations_are_serial :
    (events : List Event) (w : World) (i : ℕ)
    → consistent w.db ≡ true
    → AllWait w
    → is_finished ((play true events w).task i).stage ≡ false
    → EndsAlone
        ((play true events w).task i)
        (play true events w).db
        (advance true i (play true events w)).db
        ((advance true i (play true events w)).task i).stage
unfolding advance
revocations_are_serial events w i keys start f =
    let now = play true events w in
    let g = play-Guarded events w keys start in
    advance_from-Alone i (now.task i).stage now refl f (g.ready i) g.keys
