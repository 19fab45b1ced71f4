-- ===== src/Passkeys/Interleaved/Invariant.antt =====
-- What holds between the statements: a revocation that is past the lock holds the lock of its user,
-- and what it has read since is still so.
use h4ckrth0n.Prelude.{
  ℕ, suc, ◌≤◌, ◌<◌, ◌≡◌, sym, ap, subst, ◌∙◌, ◌&&◌, String, Bool, true, false, Option, some, List,
  [], ◌∷◌, ◌==◌, is_none, eq_iff, if◌then◌else◌, first, count, map, distinct, arith, Bool-cases,
  inl, inr,
}
use h4ckrth0n.Prelude.Rows.{count_of_absent}
use h4ckrth0n.Models.{User, WebAuthnCredential}
use h4ckrth0n.Db.{Database, consistent, credentials_consistent}
use h4ckrth0n.Passkeys.Ceremonies.{is_active}
use h4ckrth0n.Passkeys.Management.LastPasskey.{names}
use h4ckrth0n.Passkeys.Interleaved.{Stage, waiting, locked, checked, counted, finished, Task, World}

-- The active passkey with a key, of a user.
abbrev pub live : String → String → WebAuthnCredential → Bool
live user_id key c = c.id == key && is_active user_id c

-- The revocation holds its lock, and its passkey is the one that it read, and active.
abbrev pub Holds : Database → (String → Option ℕ) → ℕ → Task → WebAuthnCredential → Type 0
Holds db holder i t c =
    (holder t.user.id ≡ some i)
    × (c.id ≡ t.key_id)
    × (0 < count (live t.user.id t.key_id) db.credentials)

abbrev pub ReadyAt : Database → (String → Option ℕ) → ℕ → Task → Stage → Type 0
ReadyAt db holder i t waiting = Unit
ReadyAt db holder i t locked = holder t.user.id ≡ some i
ReadyAt db holder i t (checked c) = Holds db holder i t c
ReadyAt db holder i t (counted c) =
    Holds db holder i t c × (1 < count (is_active t.user.id) db.credentials)
ReadyAt db holder i t (finished r) = Unit

pub record Guarded (w : World) : Type 0 where
  pub keys : consistent w.db ≡ true
  pub ready : (i : ℕ) → ReadyAt w.db w.holder i (w.task i) (w.task i).stage

-- No user loses an active passkey.
abbrev pub Keeps : String → Database → Database → Type 0
Keeps user_id db db' =
    ((key : String)
      → count (live user_id key) db.credentials ≤ count (live user_id key) db'.credentials)
    × (count (is_active user_id) db.credentials ≤ count (is_active user_id) db'.credentials)

-- A revocation stays ready while it keeps its lock and the passkeys of its user.
pub ReadyAt-stays :
    (db db' : Database) (holder holder' : String → Option ℕ) (i : ℕ) (t : Task) (stage : Stage)
    → (holder t.user.id ≡ some i → (holder' t.user.id ≡ some i) × Keeps t.user.id db db')
    → ReadyAt db holder i t stage
    → ReadyAt db' holder' i t stage
ReadyAt-stays db db' holder holder' i t waiting keep r = tt
ReadyAt-stays db db' holder holder' i t locked keep r = (keep r).0
ReadyAt-stays db db' holder holder' i t (checked c) keep (h, same, n) =
    let (h', (live_kept, kept)) = keep h in (h', same, omega (arith, live_kept t.key_id))
ReadyAt-stays db db' holder holder' i t (counted c) keep ((h, same, n), more) =
    let (h', (live_kept, kept)) = keep h in
    ((h', same, omega (arith, live_kept t.key_id)), omega arith)
ReadyAt-stays db db' holder holder' i t (finished r) keep e = tt

pub ids_distinct :
    (db : Database) → consistent db ≡ true → distinct (map (λ c. c.id) db.credentials) ≡ true
unfolding consistent credentials_consistent
ids_distinct db h = ground (arith, h)

other_row :
    (user : User) (key : String) (x : WebAuthnCredential)
    → names user key x ≡ false
    → live user.id key x ≡ false
unfolding is_active
other_row user key x miss = ground arith

not_revoked :
    (user : User) (x : WebAuthnCredential) (rows : List WebAuthnCredential)
    → distinct (map (λ c. c.id) (x ∷ rows)) ≡ true
    → 0 < count (live user.id x.id) (x ∷ rows)
    → is_none x.revoked_at ≡ true
unfolding count distinct is_active
not_revoked user x rows d n =
    ground (arith, count_of_absent (λ (c : WebAuthnCredential). c.id) x.id (is_active user.id) rows)

-- The row that the select finds is the active passkey, if there is one.
pub active_row :
    (user : User) (key : String) (rows : List WebAuthnCredential)
    → distinct (map (λ c. c.id) rows) ≡ true
    → 0 < count (live user.id key) rows
    → (c : WebAuthnCredential) × (first (names user key) rows ≡ some c)
      × (is_none c.revoked_at ≡ true)
unfolding first count distinct
active_row user key [] d n = absurd (omega arith)
active_row user key (x ∷ rows) d n = elim (Bool-cases (names user key x)) [
  | inr miss ↦
      let other = other_row user key x miss in
      let n' : 0 < count (live user.id key) rows =
        subst
          (λ b.
            0 < (if b then suc (count (live user.id key) rows) else count (live user.id key) rows))
          other n in
      let (c, found, active) = active_row user key rows (ground (arith, d)) n' in
      (c, ap (λ b. if b then some x else first (names user key) rows) miss ∙ found, active)
  | inl hit ↦
      let e : x.id ≡ key = (eq_iff x.id key).0 (ground arith) in
      (
        x,
        ap (λ b. if b then some x else first (names user key) rows) hit,
        not_revoked user x rows d (subst (λ k. 0 < count (live user.id k) (x ∷ rows)) (sym e) n),
      )
]

row_found :
    (user : User) (key : String) (x : WebAuthnCredential) (rows : List WebAuthnCredential)
    → names user key x ≡ true
    → is_none x.revoked_at ≡ true
    → 0 < count (live user.id key) (x ∷ rows)
unfolding count is_active
row_found user key x rows hit active = ground arith

-- And the active row that the select finds is there for the next one.
pub row_stays :
    (user : User) (key : String) (rows : List WebAuthnCredential) (c : WebAuthnCredential)
    → first (names user key) rows ≡ some c
    → is_none c.revoked_at ≡ true
    → (c.id ≡ key) × (0 < count (live user.id key) rows)
unfolding first count is_active
row_stays user key [] c h a = absurd cc
row_stays user key (x ∷ rows) c h a = elim (Bool-cases (names user key x)) [
  | inl hit ↦
      let e : x ≡ c = ground (arith, h) in
      subst (λ y. (y.id ≡ key) × (0 < count (live user.id key) (x ∷ rows))) e
        (
          (eq_iff x.id key).0 (ground arith),
          row_found user key x rows hit (subst (λ y. is_none y.revoked_at ≡ true) (sym e) a),
        )
  | inr miss ↦
      let (e, n) = row_stays user key rows c (ground (arith, h, miss)) a in (e, ground (arith, n))
]
