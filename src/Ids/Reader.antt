-- ===== src/Ids/Reader.antt =====
-- src/h4ckath0n/auth/passkeys/ids.py: where the random bytes come from. Each thread keeps an XOF
-- reader in a thread-local slot; a fork copies the slots of the thread that forks, and a hook clears
-- the copy. The processes and their threads are one state, and a history is a list of what they do,
-- one after the other. The XOF and the OS randomness are arguments.
pub mod Words
pub mod Invariant
pub mod Keeps
pub mod Disjoint
use h4ckrth0n.Prelude.{
  ℕ, zero, suc, ◌+◌, ◌/◌, ◌%◌, Bool, true, false, not, ◌&&◌, ◌||◌, Option, none, some, List, [],
  ◌∷◌, ◌++◌, eqb, leb, if◌then◌else◌,
}
use h4ckrth0n.Models.{Bytes}
use h4ckrth0n.Result.{Result, ok, err, value_error}

-- `domain`, `master_key` and the n-th 16 bytes of `os.urandom` since the start.
pub record Entropy : Type 0 where
  pub domain : Bytes
  pub master_key : Bytes
  pub urandom : ℕ → Bytes

-- `to_bytes(n, "little")`
unfoldable pub little_endian : ℕ → ℕ → Bytes
little_endian zero x = []
little_endian (suc n) x = (x % 256) ∷ little_endian n (x / 256)

abbrev pub u64 : ℕ
u64 = 0x1_0000_0000_0000_0000

-- `x & (2 ** 64 - 1)` is the remainder.
unfoldable pub u64le : ℕ → Bytes
unfolding little_endian
u64le x = little_endian 8 (x % u64)

-- What the XOF has absorbed, and how many bytes have been squeezed.
pub record Reader : Type 0 where
  pub absorbed : Bytes
  pub squeezed : ℕ

unfoldable pub new_reader : Entropy → ℕ → ℕ → Reader
new_reader e tid draw = record {
  absorbed = e.domain ++ (e.master_key ++ (u64le tid ++ e.urandom draw));
  squeezed = 0;
}

-- The thread-local slots.
pub record Tls : Type 0 where
  pub reader : Option Reader
  pub pid : Option ℕ

abbrev pub empty_tls : Tls
empty_tls = record { reader = none; pid = none }

-- One call of `squeeze`: the stream, the place in it and the number of bytes.
pub record Squeeze : Type 0 where
  pub absorbed : Bytes
  pub start : ℕ
  pub nbytes : ℕ

-- The slots of a thread by its process and its identifier; the count of draws from the OS; and all
-- calls of `squeeze`, the last one first.
pub record Machine : Type 0 where
  pub slots : ℕ → ℕ → Tls
  pub drawn : ℕ
  pub log : List Squeeze

abbrev pub set_slot : ℕ → ℕ → Tls → (ℕ → ℕ → Tls) → ℕ → ℕ → Tls
set_slot pid tid tls slots p t = if eqb p pid && eqb t tid then tls else slots p t

unfoldable pub clear_tls_after_fork_child : Tls → Tls
clear_tls_after_fork_child tls = record tls { reader = none; pid = none }

abbrev pub is_pid : Option ℕ → ℕ → Bool
is_pid none p = false
is_pid (some q) p = eqb q p

-- The reader that a thread would use again, if there is one.
unfoldable pub kept : Bool → ℕ → Tls → Option Reader
kept hook pid tls = if hook then tls.reader else if is_pid tls.pid pid then tls.reader else none

unfoldable pub fresh_reader : Entropy → Bool → ℕ → ℕ → Machine → Reader × Machine
unfolding new_reader
fresh_reader e hook pid tid m =
    let tls = m.slots pid tid in
    let reader = new_reader e tid m.drawn in
    let tls' : Tls = record { reader = some reader; pid = if hook then tls.pid else some pid } in
    (reader, record m { slots = set_slot pid tid tls' m.slots; drawn = m.drawn + 1 })

unfoldable pub thread_reader : Entropy → Bool → ℕ → ℕ → Machine → Reader × Machine
unfolding kept fresh_reader
thread_reader e hook pid tid m = elim (kept hook pid (m.slots pid tid)) [
  | none ↦ fresh_reader e hook pid tid m
  | some reader ↦ (reader, m)
]

-- `reader.read`, on the reader that the thread's slot holds.
unfoldable pub read : ℕ → ℕ → Reader → ℕ → Machine → Machine
read pid tid reader nbytes m =
    let tls : Tls = record (m.slots pid tid) {
      reader = some (record reader { squeezed = reader.squeezed + nbytes });
    } in
    let call : Squeeze = record {
      absorbed = reader.absorbed;
      start = reader.squeezed;
      nbytes = nbytes;
    } in
    record m { slots = set_slot pid tid tls m.slots; log = call ∷ m.log }

-- `shake absorbed start nbytes` are the bytes of the XOF's stream from `start` on.
unfoldable pub random_bytes_in :
    (Bytes → ℕ → ℕ → Bytes) → Entropy → Bool → ℕ → ℕ → ℕ → Machine → Result Bytes × Machine
unfolding thread_reader read
random_bytes_in shake e hook pid tid nbytes m =
    if leb nbytes 0
    then (err (value_error "nbytes must be > 0"), m)
    else let (reader, m') = thread_reader e hook pid tid m in
      (ok (shake reader.absorbed reader.squeezed nbytes), read pid tid reader nbytes m')

-- A thread asks for bytes; a thread forks its process, and the child gets a process identifier; a
-- thread starts, with slots of its own.
pub data Event : Type 0 where
  asks : (pid tid nbytes : ℕ) → Event
  forks : (pid tid child : ℕ) → Event
  starts : (pid tid : ℕ) → Event

-- The child has one thread, the copy of the one that forked, with the same identifier.
unfoldable pub fork : Bool → ℕ → ℕ → ℕ → Machine → Machine
unfolding clear_tls_after_fork_child
fork hook pid tid child m =
    let inherited = m.slots pid tid in
    let tls = if hook then clear_tls_after_fork_child inherited else inherited in
    let others : ℕ → ℕ → Tls = λ p t. if eqb p child then empty_tls else m.slots p t in
    record m { slots = set_slot child tid tls others }

unfoldable pub step : (Bytes → ℕ → ℕ → Bytes) → Entropy → Bool → Machine → Event → Machine
unfolding random_bytes_in fork
step shake e hook m (asks pid tid nbytes) = (random_bytes_in shake e hook pid tid nbytes m).1
step shake e hook m (forks pid tid child) = fork hook pid tid child m
step shake e hook m (starts pid tid) = record m { slots = set_slot pid tid empty_tls m.slots }

abbrev pub start : Machine
start = record { slots = λ p t. empty_tls; drawn = 0; log = [] }

-- A child's identifier that the slot of the thread that forks does not record. Only the fallback
-- without the hook needs it: the OS gives a number again once its process has ended.
unfoldable pub is_new_child : Bool → Machine → Event → Bool
is_new_child hook m (forks pid tid child) = hook || not (is_pid (m.slots pid tid).pid child)
is_new_child hook m _ = true

unfoldable pub replay : (Bytes → ℕ → ℕ → Bytes) → Entropy → Bool → Machine → List Event → Machine
replay shake e hook m [] = m
replay shake e hook m (event ∷ events) = replay shake e hook (step shake e hook m event) events

unfoldable pub all_new_children :
    (Bytes → ℕ → ℕ → Bytes) → Entropy → Bool → Machine → List Event → Bool
unfolding is_new_child
all_new_children shake e hook m [] = true
all_new_children shake e hook m (event ∷ events) =
    is_new_child hook m event && all_new_children shake e hook (step shake e hook m event) events
