-- ===== src/Passkeys/Service/Cleanup.antt =====
-- The deletion of expired flows never takes away a flow that could still serve.
use h4ckrth0n.Prelude.{
  ℕ, ◌≤◌, ◌+◌, ◌≡◌, sym, ap, ◌∙◌, subst, String, Bool, true, not, some, List, [], ◌∷◌, ◌==◌, arith,
  ltb, length, first, select, count,
}
use h4ckrth0n.Models.{Time, WebAuthnChallenge}
use h4ckrth0n.Result.{ok}
use h4ckrth0n.Db.{Database}
use h4ckrth0n.Db.Session.{Session, opened, run}
use h4ckrth0n.Db.Session.Laws.{Returns, of_query, of_modify, of_commit, pure-ok, run-Returns}
use h4ckrth0n.Passkeys.Flows.{cleanup_expired_challenges}
use h4ckrth0n.Passkeys.Ceremonies.Inversion.{IsValid}
use h4ckrth0n.Passkeys.Service.Keeps.{drop_expired}

module _ {ℓ} {A : Type ℓ} (p q : A → Bool) where
  first-select :
      (xs : List A) (a : A) → first p xs ≡ some a → q a ≡ true → first p (select q xs) ≡ some a
  unfolding first select
  first-select [] a h k = absurd cc
  first-select (x ∷ xs) a h k = ground (arith, first-select xs a)

count-rest {ℓ} :
    {A : Type ℓ} (p : A → Bool) (xs : List A)
    → count p xs + length (select (λ x. not (p x)) xs) ≡ length xs
unfolding count select
count-rest p [] = omega arith
count-rest p (x ∷ xs) = ground (arith, count-rest p xs)

-- What a cleanup that returned has done.
abbrev Cleaned : Time → ℕ → Database → Database → Type 0
Cleaned now deleted db db' =
    (deleted ≡ count (λ f. ltb f.expires_at now) db.challenges) × (db' ≡ drop_expired now db)

cleanup-Cleaned :
    (now : Time) (db : Database) {deleted : ℕ} {u : Session}
    → Returns (cleanup_expired_challenges now (opened db)) deleted u
    → Cleaned now deleted db u.committed
unfolding cleanup_expired_challenges
cleanup-Cleaned now db h = of_query _ _ (opened db) h λ h₁. of_modify _ _ _ h₁ λ h₂.
    of_commit _ _ h₂ λ checked h₃.
      let (same, left) = pure-ok _ _ h₃ in (same, ap (λ (s : Session). s.committed) left)

-- A cleanup that returns counts the flows that it deletes, and a flow that is valid for a ceremony at
-- the time of the cleanup or later is valid for it afterwards.
pub cleanup_spares-IsValid :
    (now later : Time) (flow_id kind : String) (deleted : ℕ) (db db' : Database)
    (flow : WebAuthnChallenge)
    → run (cleanup_expired_challenges now) db ≡ (ok deleted, db')
    → now ≤ later
    → IsValid later flow_id kind db flow
    → (deleted + length db'.challenges ≡ length db.challenges) × IsValid later flow_id kind db' flow
cleanup_spares-IsValid now later flow_id kind deleted db db' flow h order v =
    let (u, e, left) = run-Returns (cleanup_expired_challenges now) db db' deleted h in
    let (counted, rows) = subst (Cleaned now deleted db) left (cleanup-Cleaned now db e) in
    let kept : not (ltb flow.expires_at now) ≡ true = ground (arith, v.unexpired, order) in
    subst
      (λ d.
        (deleted + length d.challenges ≡ length db.challenges) × IsValid later flow_id kind d flow)
      (sym rows)
      (
        ap (λ n. n + length (drop_expired now db).challenges) counted
            ∙ count-rest (λ (f : WebAuthnChallenge). ltb f.expires_at now) db.challenges,
        record {
          stored =
              first-select (λ f. f.id == flow_id) (λ f. not (ltb f.expires_at now)) db.challenges
                flow v.stored kept;
          of_kind = v.of_kind;
          unused = v.unused;
          unexpired = v.unexpired;
        },
      )
