-- ===== src/Passkeys/Interleaved/Released.antt =====
-- The lock of a user's row is held by a revocation of that user that is on its way, and by no other:
-- what has ended does not hold it, so it never stays taken.
use h4ckrth0n.Prelude.{
  ℕ, ◌≤◌, ◌≡◌, ◌≢◌, refl, sym, ap, subst, ◌∙◌, String, Bool, true, false, Option, none, some, List,
  [], ◌∷◌, ◌==◌, eqb, eqb_iff, eq_iff, leb, is_none, if◌then◌else◌, count, arith, Bool-cases,
  Option-cases, inl, inr,
}
use h4ckrth0n.Models.{WebAuthnCredential}
use h4ckrth0n.Result.{Result}
use h4ckrth0n.Db.{Database, consistent}
use h4ckrth0n.Passkeys.Ceremonies.{is_active}
use h4ckrth0n.Passkeys.Management.{set_revoked}
use h4ckrth0n.Passkeys.Interleaved.{
  Stage, waiting, locked, checked, counted, finished, is_finished, Task, World, set_holder,
  set_stage, at_stage, finish, take_lock, check_row, count_active, write_revoked, advance_from,
  advance, committed, Event, turn, adds, renames, logs_in, happen, play,
}
use h4ckrth0n.Passkeys.Interleaved.Ends.{left, turns_of, if-both, revocation_ends}

-- Past the lock and not at the end.
abbrev pub is_under_way : Stage → Bool
is_under_way waiting = false
is_under_way locked = true
is_under_way (checked c) = true
is_under_way (counted c) = true
is_under_way (finished r) = false

-- The lock of a row is held for its user, by a revocation that is under way.
abbrev Held : World → Type 0
Held w =
    (u : String) (j : ℕ)
    → w.holder u ≡ some j
    → (u ≡ (w.task j).user.id) × (is_under_way (w.task j).stage ≡ true)

-- A revocation after another one's stage was set, or its own.
set_stage-Held :
    (i j : ℕ) (s : Stage) (task : ℕ → Task) (u : String)
    → (eqb j i ≡ true → is_under_way s ≡ true)
    → (u ≡ (task j).user.id) × (is_under_way (task j).stage ≡ true)
    → (u ≡ (set_stage i s task j).user.id) × (is_under_way (set_stage i s task j).stage ≡ true)
set_stage-Held i j s task u on h = elim (Bool-cases (eqb j i)) [
  | inl e ↦
      subst
        (λ b.
          let t = if b then record (task j) { stage = s } else task j in
          (u ≡ t.user.id) × (is_under_way t.stage ≡ true))
        (sym e) (h.0, on e)
  | inr e ↦
      subst
        (λ b.
          let t = if b then record (task j) { stage = s } else task j in
          (u ≡ t.user.id) × (is_under_way t.stage ≡ true))
        (sym e) h
]

at_stage-Held :
    (i : ℕ) (s : Stage) (w : World) → is_under_way s ≡ true → Held w → Held (at_stage i s w)
at_stage-Held i s w on h u j e = set_stage-Held i j s w.task u (λ _. on) (h u j e)

-- The end of a revocation clears the one lock that it can hold.
finish-Held : (i : ℕ) (r : Result (Unit {0})) (w : World) → Held w → Held (finish i r w)
finish-Held i r w h u j e = elim (Bool-cases (u == (w.task i).user.id)) [
  | inl own ↦
      absurd
        (let clash : none ≡ some j = sym (ap (λ b. if b then none else w.holder u) own) ∙ e in cc)
  | inr other ↦
      let held : w.holder u ≡ some j = sym (ap (λ b. if b then none else w.holder u) other) ∙ e in
      let (at, on) = h u j held in
      set_stage-Held i j (finished r) w.task u
        (λ same. absurd (
          let k = (eqb_iff j i).0 same in
          let here : u ≡ (w.task i).user.id = at ∙ ap (λ n. (w.task n).user.id) k in
          let clash : u == (w.task i).user.id ≡ true = (eq_iff u (w.task i).user.id).1 here in cc))
        (at, on)
]

locked-own :
    (i j : ℕ) (task : ℕ → Task) (u : String)
    → j ≡ i
    → u ≡ (task j).user.id
    → (u ≡ (set_stage i locked task j).user.id)
      × (is_under_way (set_stage i locked task j).stage ≡ true)
locked-own i j task u same at =
    subst
      (λ b.
        let t = if b then record (task j) { stage = locked } else task j in
        (u ≡ t.user.id) × (is_under_way t.stage ≡ true))
      (sym ((eqb_iff j i).1 same)) (at, refl)

one_of : {i j : ℕ} → some i ≡ some j → j ≡ i
one_of h = cc

taken-Held :
    (i : ℕ) (w : World)
    → Held w
    → Held (record w {
      holder = set_holder (w.task i).user.id (some i) w.holder;
      task = set_stage i locked w.task;
    })
taken-Held i w h u j e = elim (Bool-cases (u == (w.task i).user.id)) [
  | inl own ↦
      let k : j ≡ i = one_of (sym (ap (λ b. if b then some i else w.holder u) own) ∙ e) in
      locked-own i j w.task u k
        ((eq_iff u (w.task i).user.id).0 own ∙ ap (λ n. (w.task n).user.id) (sym k))
  | inr other ↦
      let held : w.holder u ≡ some j = sym (ap (λ b. if b then some i else w.holder u) other) ∙ e in
      set_stage-Held i j locked w.task u (λ _. refl) (h u j held)
]

check_row-Held :
    (i : ℕ) (row : Option WebAuthnCredential) (w : World) → Held w → Held (check_row i row w)
unfolding check_row
check_row-Held i none w h = finish-Held i _ w h
check_row-Held i (some c) w h =
    if-both Held (is_none c.revoked_at) (at_stage-Held i (checked c) w refl h) (finish-Held i _ w h)

advance_from-Held : (i : ℕ) (s : Stage) (w : World) → Held w → Held (advance_from true i s w)
unfolding advance_from take_lock count_active write_revoked
advance_from-Held i waiting w h =
    if-both Held (is_none (w.holder (w.task i).user.id)) (taken-Held i w h) h
advance_from-Held i locked w h = check_row-Held i _ w h
advance_from-Held i (checked c) w h =
    if-both Held (leb (count (is_active (w.task i).user.id) w.db.credentials) 1)
      (finish-Held i _ w h) (at_stage-Held i (counted c) w refl h)
advance_from-Held i (counted c) w h =
    let db = set_revoked (w.task i).now c w.db in
    if-both Held (consistent db) (finish-Held i _ (record w { db = db }) h) (finish-Held i _ w h)
advance_from-Held i (finished r) w h = h

committed-Held : (db : Database) (w : World) → Held w → Held (committed db w)
committed-Held db w h = if-both Held (consistent db) h h

play-Held : (events : List Event) (w : World) → Held w → Held (play true events w)
unfolding play happen advance
play-Held [] w h = h
play-Held (turn i ∷ events) w h = play-Held events _ (advance_from-Held i (w.task i).stage w h)
play-Held (adds c ∷ events) w h = play-Held events _ (committed-Held _ w h)
play-Held (renames name c ∷ events) w h = play-Held events _ (committed-Held _ w h)
play-Held (logs_in n now c ∷ events) w h = play-Held events _ (committed-Held _ w h)

-- No lock is held.
abbrev pub AllFree : World → Type 0
AllFree w = (u : String) → w.holder u ≡ none

start-Held : (w : World) → AllFree w → Held w
start-Held w free u j e = absurd (let clash : none ≡ some j = sym (free u) ∙ e in cc)

not_under_way : (s : Stage) → is_finished s ≡ true → is_under_way s ≡ false
not_under_way waiting h = absurd cc
not_under_way locked h = absurd cc
not_under_way (checked c) h = absurd cc
not_under_way (counted c) h = absurd cc
not_under_way (finished r) h = refl

-- From a world in which no lock is held, and after any events, a revocation that is past the lock has
-- ended after as many of its own turns as it has statements left, three at most, whatever the others do
-- between them; and then it holds the lock of no row.
pub lock_is_released :
    (i : ℕ) (before later : List Event) (w : World) (user_id : String)
    → AllFree w
    → left ((play true before w).task i).stage ≤ 3
    → left ((play true before w).task i).stage ≤ turns_of i later
    → (is_finished ((play true later (play true before w)).task i).stage ≡ true)
      × ((play true later (play true before w)).holder user_id ≢ some i)
lock_is_released i before later w user_id free past turns =
    let now = play true before w in
    let ended = revocation_ends i later now past turns in
    let held = play-Held later now (play-Held before w (start-Held w free)) in
    (
      ended,
      λ e.
          let on = (held user_id i e).1 in
          let off = not_under_way ((play true later now).task i).stage ended in cc (on, off),
    )

others_only :
    (i : ℕ) (w : World)
    → Held w
    → ((j : ℕ) → (w.task j).user.id ≡ (w.task i).user.id → is_under_way (w.task j).stage ≡ false)
    → is_none (w.holder (w.task i).user.id) ≡ true
others_only i w h others = elim (Option-cases (w.holder (w.task i).user.id)) [
  | inl e ↦ rw e refl
  | inr (j, e) ↦
      let (at, on) = h (w.task i).user.id j e in
      absurd (let off = others j (sym at) in cc (on, off))
]

stage-own : (i : ℕ) (s : Stage) (task : ℕ → Task) → (set_stage i s task i).stage ≡ s
stage-own i s task = ground arith

free-locked :
    (i : ℕ) (w : World)
    → is_none (w.holder (w.task i).user.id) ≡ true
    → ((advance_from true i waiting w).task i).stage ≡ locked
unfolding advance_from take_lock
free-locked i w e = rw e (stage-own i locked w.task)

-- From a world in which no lock is held, and after any events: a revocation that waits gets the lock in
-- its next turn, if no revocation of its user is past the lock and not at its end.
pub lock_is_taken :
    (i : ℕ) (events : List Event) (w : World)
    → AllFree w
    → ((play true events w).task i).stage ≡ waiting
    → ((j : ℕ)
        → ((play true events w).task j).user.id ≡ ((play true events w).task i).user.id
        → is_under_way ((play true events w).task j).stage ≡ false)
    → ((advance true i (play true events w)).task i).stage ≡ locked
unfolding advance
lock_is_taken i events w free waits others =
    let now = play true events w in
    let open_lock = others_only i now (play-Held events w (start-Held w free)) others in
    ap (λ s. ((advance_from true i s now).task i).stage) waits ∙ free-locked i now open_lock
