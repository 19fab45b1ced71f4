-- ===== src/Examples/Interleaved.antt =====
-- Two revocations of one user at once, with the lock of the user's row and without it.
use h4ckrth0n.Prelude.{
  ℕ, false, ◌≤◌, ◌≡◌, ◌≢◌, refl, String, true, eqb, none, some, List, [], ◌∷◌, first, count, update,
  distinct, present, arith, if◌then◌else◌,
}
use h4ckrth0n.Db.{
  consistent, users_consistent, credentials_consistent, challenges_consistent, tokens_consistent,
  devices_consistent,
}
use h4ckrth0n.Passkeys.Ceremonies.{is_active}
use h4ckrth0n.Passkeys.Management.{set_revoked, set_name}
use h4ckrth0n.Passkeys.Service.ActiveKeys.{HasPasskey}
use h4ckrth0n.Passkeys.Interleaved.{
  waiting, is_finished, Task, World, take_lock, check_row, count_active, write_revoked,
  advance_from, advance, Event, turn, renames, happen, play,
}
use h4ckrth0n.Passkeys.Interleaved.Remains.{AllWait, passkey_remains}
use h4ckrth0n.Passkeys.Interleaved.Serial.{EndsAlone, revocations_are_serial}
use h4ckrth0n.Passkeys.Interleaved.Ends.{left, turns_of}
use h4ckrth0n.Passkeys.Interleaved.Released.{lock_is_released}
use h4ckrth0n.Examples.{alice, site, passkey}

abbrev of_key : String → Task
of_key key_id = record { user = alice; key_id = key_id; now = 10; stage = waiting }

-- The first revocation is of "k1", every other one of "k2".
abbrev two : World
two = record {
  db = site;
  holder = λ u. none;
  task = λ i. if eqb i 0 then of_key "k1" else of_key "k2";
}

-- Their statements in turn.
abbrev crossed : List Event
crossed = turn 0 ∷ turn 1 ∷ turn 0 ∷ turn 1 ∷ turn 0 ∷ turn 1 ∷ turn 0 ∷ turn 1 ∷ []

abbrev keys_left : World → ℕ
keys_left w = count (is_active "u1") w.db.credentials

without_lock : keys_left (play false crossed two) ≡ 0
unfolding play happen advance advance_from take_lock check_row count_active write_revoked
    set_revoked first count update is_active consistent users_consistent distinct present
    credentials_consistent challenges_consistent tokens_consistent devices_consistent
without_lock = refl

with_lock : keys_left (play true crossed two) ≡ 1
unfolding play happen advance advance_from take_lock check_row count_active write_revoked
    set_revoked first count update is_active consistent users_consistent distinct present
    credentials_consistent challenges_consistent tokens_consistent devices_consistent
with_lock = refl

two-consistent : consistent two.db ≡ true
unfolding consistent users_consistent distinct present credentials_consistent challenges_consistent
    tokens_consistent devices_consistent
two-consistent = refl

all_wait : AllWait two
all_wait i = ground arith

two_keys : HasPasskey "u1" two.db
unfolding count is_active
two_keys = omega arith

passkey_remains_example : HasPasskey "u1" (play true crossed two).db
passkey_remains_example = passkey_remains crossed two "u1" two-consistent all_wait two_keys

-- Where the first revocation has counted, the second waits, and a name was changed.
abbrev midway : List Event
midway = turn 0 ∷ turn 1 ∷ turn 0 ∷ renames (some "x") (passkey "k1" "u1" "AQ") ∷ turn 0 ∷ []

midway-counted : is_finished ((play true midway two).task 0).stage ≡ false
unfolding play happen advance advance_from take_lock check_row count_active write_revoked set_name
    first count update is_active consistent users_consistent distinct present credentials_consistent
    challenges_consistent tokens_consistent devices_consistent
midway-counted = refl

revocations_are_serial_example :
    EndsAlone
      ((play true midway two).task 0)
      (play true midway two).db
      (advance true 0 (play true midway two)).db
      ((advance true 0 (play true midway two)).task 0).stage
revocations_are_serial_example =
    revocations_are_serial midway two 0 two-consistent all_wait midway-counted

one_turn :
    (left ((play true (turn 0 ∷ []) two).task 0).stage ≤ 3)
    × (left ((play true (turn 0 ∷ []) two).task 0).stage ≤ turns_of 0 crossed)
unfolding play happen advance advance_from take_lock
one_turn = (omega arith, omega arith)

lock_is_released_example :
    (is_finished ((play true crossed (play true (turn 0 ∷ []) two)).task 0).stage ≡ true)
    × ((play true crossed (play true (turn 0 ∷ []) two)).holder "u1" ≢ some 0)
lock_is_released_example =
    lock_is_released 0 (turn 0 ∷ []) crossed two "u1" (λ u. refl) one_turn.0 one_turn.1
