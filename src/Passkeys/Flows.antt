-- ===== src/Passkeys/Flows.antt =====
-- The challenge helpers of src/h4ckath0n/auth/passkeys/service.py: a flow is found, checked and
-- consumed, and expired flows are deleted.
use h4ckrth0n.Prelude.{
  ℕ, String, some, ◌==◌, ltb, is_none, not, if◌then◌else◌, first, update, select, count,
}
use h4ckrth0n.Models.{Bytes, Time, WebAuthnChallenge}
use h4ckrth0n.Result.{Result, ok, err, value_error}
use h4ckrth0n.Db.{Database}
use h4ckrth0n.Db.Session.{Tx, ◌>>=◌, ◌>>◌, pure, query, lift, modify, flush, commit, found}
use h4ckrth0n.Text.Base64.{bytes_to_base64url}

-- What one request draws from outside: the clock, read `clock i` the i-th time, the random stream of
-- the identifiers, and the bytes of `secrets`.
pub record Draws : Type 0 where
  pub clock : ℕ → Time
  pub stream : ℕ → Bytes
  pub challenge_bytes : Bytes
  pub flow_bytes : Bytes

-- `secrets.token_urlsafe(32)`: the URL-safe base64 of 32 random bytes
unfoldable pub new_flow_id : Draws → String
new_flow_id d = bytes_to_base64url d.flow_bytes

unfoldable pub new_challenge : Draws → Bytes
new_challenge d = d.challenge_bytes

unfoldable pub check_flow : Time → String → WebAuthnChallenge → Result WebAuthnChallenge
check_flow now kind flow =
    if not (flow.kind == kind)
    then err (value_error "Flow kind mismatch")
    else if not (is_none flow.consumed_at)
    then err (value_error "Flow already consumed")
    else if ltb flow.expires_at now
    then err (value_error "Flow expired")
    else ok flow

unfoldable pub get_valid_flow : Time → String → String → Tx WebAuthnChallenge
unfolding check_flow
get_valid_flow now flow_id kind = do
  row ← query (λ db. first (λ f. f.id == flow_id) db.challenges)
  flow ← found row (value_error "Unknown flow")
  lift (check_flow now kind flow)

-- The change of a flow's row, by its primary key.
unfoldable pub mark_consumed : Time → WebAuthnChallenge → Database → Database
mark_consumed now flow db = record db {
  challenges =
      update (λ f. f.id == flow.id) (λ f. record f { consumed_at = some now }) db.challenges;
}

unfoldable pub consume_flow : Time → WebAuthnChallenge → Tx (Unit {0})
unfolding mark_consumed
consume_flow now flow = do modify (mark_consumed now flow); flush

-- Returns how many rows the statement deleted.
unfoldable pub cleanup_expired_challenges : Time → Tx ℕ
cleanup_expired_challenges now = do
  deleted ← query (λ db. count (λ f. ltb f.expires_at now) db.challenges)
  modify (λ db. record db { challenges = select (λ f. not (ltb f.expires_at now)) db.challenges })
  commit
  pure deleted
