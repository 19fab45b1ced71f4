-- ===== src/Passkeys/Interleaved/Remains.antt =====
-- Revocations that run at once never take the last passkey of a user.
use h4ckrth0n.Prelude.{
  ℕ, ◌≡◌, refl, sym, ap, subst, ◌∙◌, String, Bool, true, false, Option, none, some, List, [], ◌∷◌,
  ◌==◌, leb, is_none, eq_iff, if◌then◌else◌, first, count, arith, Bool-cases, inl, inr,
}
use h4ckrth0n.Models.{WebAuthnCredential}
use h4ckrth0n.Result.{Result}
use h4ckrth0n.Db.{Database, consistent}
use h4ckrth0n.Passkeys.Ceremonies.{is_active}
use h4ckrth0n.Passkeys.Management.{set_revoked}
use h4ckrth0n.Passkeys.Management.LastPasskey.{names}
use h4ckrth0n.Passkeys.Service.ActiveKeys.{HasPasskey}
use h4ckrth0n.Passkeys.Interleaved.{
  Stage, waiting, locked, checked, counted, finished, World, at_stage, finish, committed, take_lock,
  check_row, count_active, write_revoked, advance_from, advance, Event, turn, adds, renames,
  logs_in, happen, play,
}
use h4ckrth0n.Passkeys.Interleaved.Invariant.{ReadyAt, Guarded, Keeps, row_stays}
use h4ckrth0n.Passkeys.Interleaved.Steps.{
  add_credential-Keeps, set_name-Keeps, record_use-Keeps, set_revoked-Keeps, set_revoked-leaves_one,
}
use h4ckrth0n.Passkeys.Interleaved.Turns.{
  at_stage-Guarded, moved-Guarded, finish-Guarded, committed-Guarded, Keeps-refl, set_holder-own,
}

-- What every event keeps.
record Goes (w w' : World) : Type 0 where
  pub guarded : Guarded w'
  pub remains : (user_id : String) → HasPasskey user_id w.db → HasPasskey user_id w'.db

-- A statement that ends without a change.
refused-Goes :
    (i : ℕ) (r : Result (Unit {0})) (w : World)
    → w.holder (w.task i).user.id ≡ some i
    → Guarded w
    → Goes w (finish i r w)
refused-Goes i r w holds g = record {
  guarded = finish-Guarded i r w.db w holds g.keys (λ u ne. Keeps-refl u w.db) g;
  remains = λ u h. h;
}

staged-Goes :
    (i : ℕ) (s : Stage) (w : World)
    → ReadyAt w.db w.holder i (w.task i) s
    → Guarded w
    → Goes w (at_stage i s w)
staged-Goes i s w own g = record { guarded = at_stage-Guarded i s w own g; remains = λ u h. h }

waited-Goes : (w : World) → Guarded w → Goes w w
waited-Goes w g = record { guarded = g; remains = λ u h. h }

-- A test between two ends.
if-Goes :
    (b : Bool) (w x y : World)
    → (b ≡ true → Goes w x)
    → (b ≡ false → Goes w y)
    → Goes w (if b then x else y)
if-Goes true w x y h k = h refl
if-Goes false w x y h k = k refl

not_free : (o : Option ℕ) (j : ℕ) → is_none o ≡ true → o ≡ some j → ⊥
not_free o j free h = ground arith

take_lock-Goes : (i : ℕ) (w : World) → Guarded w → Goes w (take_lock true i w)
unfolding take_lock
take_lock-Goes i w g =
    if-Goes (is_none (w.holder (w.task i).user.id)) w _ _
      (λ free. record {
        guarded =
            moved-Guarded i locked (w.task i).user.id (some i) w.db w g.keys
              (λ j ne h e. not_free (w.holder (w.task i).user.id) j free (sym (ap w.holder e) ∙ h))
              (λ u ne. Keeps-refl u w.db) (set_holder-own (w.task i).user.id (some i) w.holder) g;
        remains = λ u h. h;
      })
      (λ taken. waited-Goes w g)

check_row-Goes :
    (i : ℕ) (row : Option WebAuthnCredential) (w : World)
    → first (names (w.task i).user (w.task i).key_id) w.db.credentials ≡ row
    → w.holder (w.task i).user.id ≡ some i
    → Guarded w
    → Goes w (check_row i row w)
unfolding check_row
check_row-Goes i none w e holds g = refused-Goes i _ w holds g
check_row-Goes i (some cred) w e holds g =
    if-Goes (is_none cred.revoked_at) w _ _
      (λ active.
        let (same, n) =
          row_stays (w.task i).user (w.task i).key_id w.db.credentials cred e active in
        staged-Goes i (checked cred) w (holds, same, n) g)
      (λ revoked. refused-Goes i _ w holds g)

count_active-Goes :
    (i : ℕ) (cred : WebAuthnCredential) (w : World)
    → ReadyAt w.db w.holder i (w.task i) (checked cred)
    → Guarded w
    → Goes w (count_active i cred w)
unfolding count_active
count_active-Goes i cred w (holds, same, n) g =
    if-Goes (leb (count (is_active (w.task i).user.id) w.db.credentials) 1) w _ _
      (λ last. refused-Goes i _ w holds g)
      (λ more. staged-Goes i (counted cred) w ((holds, same, n), ground (arith, more)) g)

write_revoked-Goes :
    (i : ℕ) (cred : WebAuthnCredential) (w : World)
    → ReadyAt w.db w.holder i (w.task i) (counted cred)
    → Guarded w
    → Goes w (write_revoked i cred w)
unfolding write_revoked
write_revoked-Goes i cred w ((holds, same, n), more) g =
    let t = w.task i in
    let db = set_revoked t.now cred w.db in
    let others = set_revoked-Keeps t.now t.user t.key_id cred w.db g.keys same n in
    let own = set_revoked-leaves_one t.now t.user t.key_id cred w.db g.keys same n more in
    if-Goes (consistent db) w _ _
      (λ keys. record {
        guarded = finish-Guarded i _ db w holds keys others g;
        remains = λ u h. elim (Bool-cases (u == t.user.id)) [
          | inl e ↦ subst (λ v. HasPasskey v db) (sym ((eq_iff u t.user.id).0 e)) own
          | inr ne ↦
              let kept = others u (ground (arith, eq_iff u t.user.id)) in omega (arith, kept.1)
        ];
      })
      (λ broken. refused-Goes i _ w holds g)

advance_from-Goes :
    (i : ℕ) (s : Stage) (w : World)
    → ReadyAt w.db w.holder i (w.task i) s
    → Guarded w
    → Goes w (advance_from true i s w)
unfolding advance_from
advance_from-Goes i waiting w own g = take_lock-Goes i w g
advance_from-Goes i locked w own g = check_row-Goes i _ w refl own g
advance_from-Goes i (checked c) w own g = count_active-Goes i c w own g
advance_from-Goes i (counted c) w own g = write_revoked-Goes i c w own g
advance_from-Goes i (finished r) w own g = waited-Goes w g

committed-Goes :
    (db : Database) (w : World)
    → ((user_id : String) → Keeps user_id w.db db)
    → Guarded w
    → Goes w (committed db w)
committed-Goes db w keep g = record {
  guarded = committed-Guarded db w keep g;
  remains = λ u h. elim (Bool-cases (consistent db)) [
    | inl keys ↦
        subst (λ b. HasPasskey u (if b then record w { db = db } else w).db) (sym keys)
          (let k = keep u in omega (arith, k.1))
    | inr broken ↦
        subst (λ b. HasPasskey u (if b then record w { db = db } else w).db) (sym broken) h
  ];
}

happen-Goes : (event : Event) (w : World) → Guarded w → Goes w (happen true event w)
unfolding happen advance
happen-Goes (turn i) w g = advance_from-Goes i (w.task i).stage w (g.ready i) g
happen-Goes (adds c) w g = committed-Goes _ w (add_credential-Keeps c w.db) g
happen-Goes (renames name c) w g = committed-Goes _ w (set_name-Keeps name c w.db) g
happen-Goes (logs_in n now c) w g = committed-Goes _ w (record_use-Keeps n now c w.db) g

play-Goes : (events : List Event) (w : World) → Guarded w → Goes w (play true events w)
unfolding play
play-Goes [] w g = waited-Goes w g
play-Goes (event ∷ events) w g =
    let one = happen-Goes event w g in
    let rest = play-Goes events (happen true event w) one.guarded in
    record { guarded = rest.guarded; remains = λ u h. rest.remains u (one.remains u h) }

-- No revocation has begun.
abbrev pub AllWait : World → Type 0
AllWait w = (i : ℕ) → (w.task i).stage ≡ waiting

start-Guarded : (w : World) → consistent w.db ≡ true → AllWait w → Guarded w
start-Guarded w keys start = record {
  keys = keys;
  ready = λ i. subst (ReadyAt w.db w.holder i (w.task i)) (sym (start i)) tt;
}

pub play-Guarded :
    (events : List Event) (w : World)
    → consistent w.db ≡ true
    → AllWait w
    → Guarded (play true events w)
play-Guarded events w keys start = (play-Goes events w (start-Guarded w keys start)).guarded

-- Where the database keeps the lock of a user's row, a user with an active passkey has one after any
-- number of revocations, however their statements interleave with each other and with the commits of
-- other requests. The database keeps its keys, and no revocation has begun at the start.
pub passkey_remains :
    (events : List Event) (w : World) (user_id : String)
    → consistent w.db ≡ true
    → AllWait w
    → HasPasskey user_id w.db
    → HasPasskey user_id (play true events w).db
passkey_remains events w user_id keys start h =
    (play-Goes events w (start-Guarded w keys start)).remains user_id h
