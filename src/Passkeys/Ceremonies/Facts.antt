-- ===== src/Passkeys/Ceremonies/Facts.antt =====
-- What a flow is worth: a flow that is spent opens no ceremony any more.
use h4ckrth0n.Prelude.{
  ◌≡◌, ◌≢◌, ◌&&◌, String, Bool, false, some, arith, ◌==◌, eq_iff, is_none, first, count,
  Option-cases, inl, inr,
}
use h4ckrth0n.Prelude.Rows.{first-and_of_count, count-update-le, count-update-zero, count-concat}
use h4ckrth0n.Models.{Time, WebAuthnChallenge}
use h4ckrth0n.Result.{Result, ok, err}
use h4ckrth0n.Db.{Database}
use h4ckrth0n.Db.Session.{Session, Tx, continue, ◌>>=◌, found}
use h4ckrth0n.Passkeys.Flows.{check_flow, get_valid_flow, mark_consumed}
use h4ckrth0n.Passkeys.Ceremonies.{add_challenge}

-- A row of the flow that can still be used.
abbrev pub is_open : String → WebAuthnChallenge → Bool
is_open flow_id f = f.id == flow_id && is_none f.consumed_at

-- No row of the flow can be used: all are consumed, or there is none.
abbrev pub IsSpent : String → Database → Type 0
IsSpent flow_id db = count (is_open flow_id) db.challenges ≡ 0

-- The error that a result carries.
abbrev pub Raises {ℓ} : {A : Type ℓ} → Result A → Type 0
Raises (ok a) = ⊥
Raises (err e) = Unit {0}

Raises-continue {ℓ κ} :
    {A : Type ℓ} {B : Type κ} (r : Result A) (f : A → Tx B) (s : Session)
    → Raises r
    → Raises (continue r f s).0
Raises-continue (ok a) f s h = absurd h
Raises-continue (err e) f s h = h

-- An action whose first step raises.
pub Raises-bind {ℓ κ} :
    {A : Type ℓ} {B : Type κ} (m : Tx A) (f : A → Tx B) (s : Session)
    → Raises (m s).0
    → Raises ((m >>= f) s).0
unfolding ◌>>=◌
Raises-bind m f s h = let (r, t) = m s in Raises-continue r f t h

pub mark_consumed-IsSpent :
    (now : Time) (flow : WebAuthnChallenge) (flow_id : String) (db : Database)
    → flow.id ≡ flow_id
    → IsSpent flow_id (mark_consumed now flow db)
unfolding mark_consumed
mark_consumed-IsSpent now flow flow_id db e =
    count-update-zero (is_open flow_id) _ _ db.challenges
      (λ x h. ground (arith, eq_iff x.id flow_id, eq_iff x.id flow.id)) (λ x h. ground arith)

pub IsSpent-mark_consumed :
    (flow_id : String) (now : Time) (flow : WebAuthnChallenge) (db : Database)
    → IsSpent flow_id db
    → IsSpent flow_id (mark_consumed now flow db)
unfolding mark_consumed
IsSpent-mark_consumed flow_id now flow db h = omega (
  arith,
  count-update-le (is_open flow_id) (λ f. f.id == flow.id)
      (λ f. record f { consumed_at = some now }) db.challenges (λ x p. ground arith),
)

pub IsSpent-add_challenge :
    (flow_id : String) (flow : WebAuthnChallenge) (db : Database)
    → flow.id ≢ flow_id
    → IsSpent flow_id db
    → IsSpent flow_id (add_challenge flow db)
IsSpent-add_challenge flow_id flow db ne h =
    ground (arith, count-concat (is_open flow_id) db.challenges flow, eq_iff flow.id flow_id)

check_flow_used :
    (now : Time) (kind : String) (f : WebAuthnChallenge)
    → is_none f.consumed_at ≡ false
    → Raises (check_flow now kind f)
unfolding check_flow
check_flow_used now kind f h = ground arith

pub get_valid_flow-IsSpent :
    (now : Time) (flow_id kind : String) (s : Session)
    → IsSpent flow_id s.working
    → Raises (get_valid_flow now flow_id kind s).0
get_valid_flow-IsSpent now flow_id kind s h =
    elim (Option-cases (first (λ f. f.id == flow_id) s.working.challenges)) [
      | inl e ↦ unfold get_valid_flow ◌>>=◌ in rw (e, found) tt
      | inr (f, e) ↦
          unfold get_valid_flow ◌>>=◌ in
          rw (e, found)
            (check_flow_used now kind f (
              first-and_of_count (λ f. f.id == flow_id) (λ f. is_none f.consumed_at)
                s.working.challenges f h e))
    ]
