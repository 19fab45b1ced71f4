-- ===== src/Endpoint/Laws.antt =====
-- Endpoints that stop before their end.
use h4ckrth0n.Prelude.{◌≡◌, ap, ◌∙◌}
use h4ckrth0n.Result.{Error, ok, err}
use h4ckrth0n.Db.{Database}
use h4ckrth0n.Db.Session.{Session, Tx, opened, run}
use h4ckrth0n.Http.{Http, crashes}
use h4ckrth0n.Endpoint.{Endpoint, answered, calls, go_on, ◌>>=◌, serve}

module _ {ℓ κ} {A : Type ℓ} {B : Type κ} where
  -- A service that raised what is answered with an exception, and one that returned.
  pub serve-raised :
      (m : Tx A) (handle : Error → Http A) (f : A → Endpoint B) (db db' : Database) (e : Error)
      → run m db ≡ (err e, db')
      → serve (calls m handle >>= f) db ≡ (
        (go_on (handle e) f (m (opened db)).1).0,
        (go_on (handle e) f (m (opened db)).1).1.committed,
      )
  unfolding ◌>>=◌
  serve-raised m handle f db db' e h =
      ap
        (λ r. (
          (go_on (answered handle r) f (m (opened db)).1).0,
          (go_on (answered handle r) f (m (opened db)).1).1.committed,
        ))
        (λ i. (h i).0)

  -- After a service that returned, a rest that crashes where it stands.
  pub serve-crashed :
      (m : Tx A) (handle : Error → Http A) (f : A → Endpoint B) (db db' : Database) (a : A)
      → run m db ≡ (ok a, db')
      → ((s : Session) → f a s ≡ (crashes, s))
      → serve (calls m handle >>= f) db ≡ (crashes, db')
  unfolding ◌>>=◌
  serve-crashed m handle f db db' a h k =
      ap
        (λ r. (
          (go_on (answered handle r) f (m (opened db)).1).0,
          (go_on (answered handle r) f (m (opened db)).1).1.committed,
        ))
        (λ i. (h i).0)
      ∙ ap (λ (x : Http B × Session). (x.0, x.1.committed)) (k (m (opened db)).1)
      ∙ ap (λ db. (crashes, db)) (λ i. (h i).1)
