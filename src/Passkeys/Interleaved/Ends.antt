-- ===== src/Passkeys/Interleaved/Ends.antt =====
-- A revocation that has its lock ends, whatever the others do.
use h4ckrth0n.Prelude.{
  ℕ, suc, ◌≤◌, ◌≡◌, refl, sym, ap, subst, Bool, true, false, Option, none, some, List, [], ◌∷◌, eqb,
  leb, is_none, if◌then◌else◌, first, count, arith, Bool-cases, inl, inr,
}
use h4ckrth0n.Models.{WebAuthnCredential}
use h4ckrth0n.Result.{ok, err, value_error, last_passkey_error, integrity_error}
use h4ckrth0n.Db.{Database, consistent}
use h4ckrth0n.Passkeys.Ceremonies.{is_active, record_use, add_credential}
use h4ckrth0n.Passkeys.Management.{set_name, set_revoked}
use h4ckrth0n.Passkeys.Management.LastPasskey.{names}
use h4ckrth0n.Passkeys.Interleaved.{
  Stage, waiting, locked, checked, counted, finished, is_finished, Task, World, set_stage,
  take_lock, check_row, count_active, write_revoked, advance_from, advance, committed, Event, turn,
  adds, renames, logs_in, happen, play,
}

-- The statements that a revocation still has.
abbrev pub left : Stage → ℕ
left waiting = 4
left locked = 3
left (checked c) = 2
left (counted c) = 1
left (finished r) = 0

-- The turns that a revocation gets.
abbrev pub turns_of : ℕ → List Event → ℕ
turns_of i [] = 0
turns_of i (turn j ∷ events) = if eqb i j then suc (turns_of i events) else turns_of i events
turns_of i (event ∷ events) = turns_of i events

abbrev left_of : ℕ → World → ℕ
left_of i w = left (w.task i).stage

nothing_to_do : (s : Stage) → left s ≤ 0 → is_finished s ≡ true
nothing_to_do waiting h = absurd (omega arith)
nothing_to_do locked h = absurd (omega arith)
nothing_to_do (checked c) h = absurd (omega arith)
nothing_to_do (counted c) h = absurd (omega arith)
nothing_to_do (finished r) h = refl

-- A test between two ends, both of which have a property.
pub if-both {ℓ κ} :
    {A : Type ℓ} (P : A → Type κ) (b : Bool) {x y : A} → P x → P y → P (if b then x else y)
if-both P true h k = h
if-both P false h k = k

set_stage-left : (i : ℕ) (s : Stage) (task : ℕ → Task) → left (set_stage i s task i).stage ≡ left s
set_stage-left i s task = ap left (ground arith)

check_row-left :
    (i : ℕ) (row : Option WebAuthnCredential) (w : World) → left_of i (check_row i row w) ≤ 2
unfolding check_row
check_row-left i none w =
    omega (arith, set_stage-left i (finished (err (value_error "Credential not found"))) w.task)
check_row-left i (some c) w =
    if-both (λ v. left_of i v ≤ 2) (is_none c.revoked_at)
      (omega (arith, set_stage-left i (checked c) w.task))
      (omega (
        arith,
        set_stage-left i (finished (err (value_error "Credential already revoked"))) w.task,
      ))

count_active-left :
    (i : ℕ) (c : WebAuthnCredential) (w : World) → left_of i (count_active i c w) ≤ 1
unfolding count_active
count_active-left i c w =
    if-both (λ v. left_of i v ≤ 1) (leb (count (is_active (w.task i).user.id) w.db.credentials) 1)
      (omega (arith, set_stage-left i (finished (err last_passkey_error)) w.task))
      (omega (arith, set_stage-left i (counted c) w.task))

write_revoked-left :
    (i : ℕ) (c : WebAuthnCredential) (w : World) → left_of i (write_revoked i c w) ≤ 0
unfolding write_revoked
write_revoked-left i c w =
    if-both (λ v. left_of i v ≤ 0) (consistent (set_revoked (w.task i).now c w.db))
      (omega (arith, set_stage-left i (finished (ok tt)) w.task))
      (omega (arith, set_stage-left i (finished (err integrity_error)) w.task))

-- Past the lock, each turn is one statement fewer.
own_turn :
    (i : ℕ) (s : Stage) (w : World)
    → (w.task i).stage ≡ s
    → left s ≤ 3
    → (n : ℕ) → left s ≤ suc n
    → left_of i (advance_from true i s w) ≤ n
unfolding advance_from
own_turn i waiting w at h n m = absurd (omega arith)
own_turn i locked w at h n m =
    omega
      (arith, check_row-left i (first (names (w.task i).user (w.task i).key_id) w.db.credentials) w)
own_turn i (checked c) w at h n m = omega (arith, count_active-left i c w)
own_turn i (counted c) w at h n m = omega (arith, write_revoked-left i c w)
own_turn i (finished r) w at h n m = subst (λ s. left s ≤ n) (sym at) (omega arith)

-- The turn of another revocation is no statement of this one.
abbrev Stays : ℕ → World → World → Type 0
Stays i w w' = (w'.task i).stage ≡ (w.task i).stage

module _ (i j : ℕ) (ne : eqb i j ≡ false) where
  set_stage-other : (s : Stage) (task : ℕ → Task) → (set_stage j s task i).stage ≡ (task i).stage
  set_stage-other s task = ground (arith, ne)

  check_row-other : (row : Option WebAuthnCredential) (w : World) → Stays i w (check_row j row w)
  unfolding check_row
  check_row-other none w = set_stage-other _ w.task
  check_row-other (some c) w =
      if-both (Stays i w) (is_none c.revoked_at) (set_stage-other _ w.task)
        (set_stage-other _ w.task)

  other_turn : (s : Stage) (w : World) → Stays i w (advance_from true j s w)
  unfolding advance_from take_lock count_active write_revoked
  other_turn waiting w =
      if-both (Stays i w) (is_none (w.holder (w.task j).user.id)) (set_stage-other _ w.task) refl
  other_turn locked w = check_row-other _ w
  other_turn (checked c) w =
      if-both (Stays i w) (leb (count (is_active (w.task j).user.id) w.db.credentials) 1)
        (set_stage-other _ w.task) (set_stage-other _ w.task)
  other_turn (counted c) w =
      if-both (Stays i w) (consistent (set_revoked (w.task j).now c w.db))
        (set_stage-other _ w.task) (set_stage-other _ w.task)
  other_turn (finished r) w = refl

commit-Stays : (i : ℕ) (db : Database) (w : World) → Stays i w (committed db w)
commit-Stays i db w = if-both (Stays i w) (consistent db) refl refl

-- One event, and the turns that the revocation has after it.
event-left :
    (i : ℕ) (event : Event) (events : List Event) (w : World)
    → left_of i w ≤ 3
    → left_of i w ≤ turns_of i (event ∷ events)
    → (left_of i (happen true event w) ≤ 3) × (left_of i (happen true event w) ≤ turns_of i events)
unfolding happen advance
event-left i (turn j) events w h n = elim (Bool-cases (eqb i j)) [
  | inl own ↦
      let e : i ≡ j = ground arith in
      let m = ap (λ b. if b then suc (turns_of i events) else turns_of i events) own in
      subst
        (λ k.
          (left_of i (happen true (turn k) w) ≤ 3)
          × (left_of i (happen true (turn k) w) ≤ turns_of i events))
        e
        (
          own_turn i (w.task i).stage w refl h 3 (omega arith),
          own_turn i (w.task i).stage w refl h (turns_of i events) (omega arith),
        )
  | inr ne ↦
      let e = ap left (other_turn i j ne (w.task j).stage w) in
      let m = ap (λ b. if b then suc (turns_of i events) else turns_of i events) ne in
      (omega arith, omega arith)
]
event-left i (adds c) events w h n =
    let e = ap left (commit-Stays i (add_credential c w.db) w) in (omega arith, omega arith)
event-left i (renames name c) events w h n =
    let e = ap left (commit-Stays i (set_name name c w.db) w) in (omega arith, omega arith)
event-left i (logs_in k now c) events w h n =
    let e = ap left (commit-Stays i (record_use k now c w.db) w) in (omega arith, omega arith)

-- A revocation that is past the lock has ended after as many of its own turns as it has statements
-- left, three at most, whatever other revocations and other requests do between them: nothing blocks
-- it once it has the lock.
pub revocation_ends :
    (i : ℕ) (events : List Event) (w : World)
    → left (w.task i).stage ≤ 3
    → left (w.task i).stage ≤ turns_of i events
    → is_finished ((play true events w).task i).stage ≡ true
unfolding play
revocation_ends i [] w h n = nothing_to_do (w.task i).stage n
revocation_ends i (event ∷ events) w h n =
    let (h', n') = event-left i event events w h n in
    revocation_ends i events (happen true event w) h' n'
