-- ===== src/Auth/Passwords/Resets/Once.antt =====
-- A reset token serves once, whatever requests follow.
use h4ckrth0n.Prelude.{
  ℕ, ◌≡◌, refl, sym, subst, inl, inr, Bool-cases, String, true, false, Option, none, some, List, [],
  ◌∷◌, map, ◌==◌, eq_iff, arith, contains,
}
use h4ckrth0n.Prelude.Rows.{
  count-update-le, count-concat, contains-concat, contains_of_distinct, map-update,
  first-none_of_count,
}
use h4ckrth0n.Json.{Fields, end, field}
use h4ckrth0n.Models.{User, PasswordResetToken, Device}
use h4ckrth0n.Config.{Settings}
use h4ckrth0n.Result.{Result, ok, err}
use h4ckrth0n.Db.{Database, consistent, tokens_consistent}
use h4ckrth0n.Db.Session.{Session, opened, run, modify}
use h4ckrth0n.Db.Session.Laws.{run-Returns}
use h4ckrth0n.Db.Session.Keeps.{
  Keeps, Keeps-bind, Keeps-pure, Keeps-lift, Keeps-modify, Keeps-run, at_change_then, keeps_rules,
}
use h4ckrth0n.Passkeys.Ceremonies.Facts.{Raises}
use h4ckrth0n.Auth.Passwords.{
  Crypto, Draws, is_usable, mark_used, set_password, add_user, add_device, add_token, register_user,
  add_new_device, register_device, store_token, create_password_reset_token, confirm_password_reset,
}
use h4ckrth0n.Auth.Passwords.Resets.{IsUsed, mark_used-IsUsed, Reset, confirm_password_reset-ok}

-- The requests of the password service that can change the database.
pub data Call : Type 0 where
  registers : Draws → String → String → Settings → Call
  binds : Draws → String → Option Fields → Option String → Call
  requests_reset : Draws → String → ℕ → Call
  confirms_reset : Draws → String → String → Call

module _ (crypto : Crypto) where
  unfoldable pub step : Database → Call → Database
  step db (registers d email password s) = (run (register_user crypto d email password s) db).1
  step db (binds d user_id jwk label) = (run (register_device crypto d user_id jwk label) db).1
  step db (requests_reset d email m) = (run (create_password_reset_token crypto d email m) db).1
  step db (confirms_reset d raw_token password) =
      (run (confirm_password_reset crypto d raw_token password) db).1

  unfoldable pub history : Database → List Call → Database
  unfolding step
  history db [] = db
  history db (c ∷ cs) = history (step db c) cs

add_token-IsUsed :
    (hashed : String) (t : PasswordResetToken) (db : Database)
    → consistent (add_token t db) ≡ true
    → IsUsed hashed db
    → IsUsed hashed (add_token t db)
unfolding consistent tokens_consistent
add_token-IsUsed hashed t db checked h =
    let other : contains t.token_hash (map (λ t. t.token_hash) db.reset_tokens) ≡ false =
      contains_of_distinct (λ t. t.token_hash) db.reset_tokens t (ground (arith, checked)) in
    let there = h.there in
    let differs : (t.token_hash == hashed) ≡ false = elim (Bool-cases (t.token_hash == hashed)) [
      | inl e ↦ absurd (
          let same =
            subst (λ k. contains k (map (λ t. t.token_hash) db.reset_tokens) ≡ false)
              ((eq_iff t.token_hash hashed).0 e) other in
          cc (same, there))
      | inr e ↦ e
    ] in
    record {
      unusable =
          ground (arith, differs, h.unusable, count-concat (is_usable hashed) db.reset_tokens t);
      there = ground (arith, there, contains-concat (λ t. t.token_hash) hashed db.reset_tokens t);
    }

mark_used-keeps :
    (hashed : String) (prt : PasswordResetToken) (db : Database)
    → IsUsed hashed db
    → IsUsed hashed (mark_used prt db)
unfolding mark_used
mark_used-keeps hashed prt db h =
    let spend = λ (t : PasswordResetToken). record t { used = true } in
    record {
      unusable = ground (
        arith,
        h.unusable,
        count-update-le (is_usable hashed) (λ t. t.id == prt.id) spend db.reset_tokens
            (λ t p. ground arith),
      );
      there =
          rw
            (map-update (λ (t : PasswordResetToken). t.token_hash) (λ t. t.id == prt.id) spend
              db.reset_tokens (λ t. refl))
            h.there;
    }

module _ (crypto : Crypto) (hashed : String) where
  IsUsed-set_password :
      (hash : String) (user : User) (db : Database)
      → IsUsed hashed db
      → IsUsed hashed (set_password hash user db)
  unfolding set_password
  IsUsed-set_password hash user db h = record { unusable = h.unusable; there = h.there }

  user-Keeps : (user : User) → Keeps (IsUsed hashed) (modify (add_user user))
  user-Keeps user = Keeps-modify _ (λ db h. record { unusable = h.unusable; there = h.there })

  device-Keeps : (device : Device) → Keeps (IsUsed hashed) (modify (add_device device))
  device-Keeps device = Keeps-modify _ (λ db h. record { unusable = h.unusable; there = h.there })

  IsUsed-Keeps : (prt : PasswordResetToken) → Keeps (IsUsed hashed) (modify (mark_used prt))
  IsUsed-Keeps prt = Keeps-modify _ (mark_used-keeps hashed prt)

  password-Keeps :
      (hash : String) (user : User) → Keeps (IsUsed hashed) (modify (set_password hash user))
  password-Keeps hash user = Keeps-modify _ (IsUsed-set_password hash user)

  ruleset steps = (keeps_rules, user-Keeps, device-Keeps, IsUsed-Keeps, password-Keeps)

  module _ (d : Draws) where
    register_user-Keeps :
        (email password : String) (s : Settings)
        → Keeps (IsUsed hashed) (register_user crypto d email password s)
    unfolding register_user
    register_user-Keeps email password s = search steps depth 20

    add_new_device-Keeps :
        (user_id : String) (jwk : Fields) (label : Option String) (fp : String) (o : Option Device)
        → Keeps (IsUsed hashed) (add_new_device crypto d user_id jwk label fp o)
    unfolding add_new_device
    add_new_device-Keeps user_id jwk label fp none = search steps depth 20
    add_new_device-Keeps user_id jwk label fp (some device) = search steps depth 20

    register_device-Keeps :
        (user_id : String) (jwk : Option Fields) (label : Option String)
        → Keeps (IsUsed hashed) (register_device crypto d user_id jwk label)
    unfolding register_device
    register_device-Keeps user_id none label = search steps
    register_device-Keeps user_id (some end) label = search steps
    register_device-Keeps user_id (some (field k v fs)) label =
        search (steps, add_new_device-Keeps) depth 20

    store_token-Keeps : (m : ℕ) (o : Option User) → Keeps (IsUsed hashed) (store_token crypto d m o)
    store_token-Keeps m none = search steps
    store_token-Keeps m (some user) = Keeps-bind _ _ (Keeps-lift _) λ id. record {
      at = λ s.
          at_change_then (add_token _) _ s
            (λ checked h. add_token-IsUsed hashed _ s.working checked h) (λ v. Keeps-pure _);
    }

    create-Keeps :
        (email : String) (m : ℕ)
        → Keeps (IsUsed hashed) (create_password_reset_token crypto d email m)
    unfolding create_password_reset_token
    create-Keeps email m = search (steps, store_token-Keeps) depth 20

    confirm-Keeps :
        (raw password : String)
        → Keeps (IsUsed hashed) (confirm_password_reset crypto d raw password)
    unfolding confirm_password_reset
    confirm-Keeps raw password = search steps depth 20

  step-keeps : (db : Database) (c : Call) → IsUsed hashed db → IsUsed hashed (step crypto db c)
  unfolding step
  step-keeps db (registers d email password s) h =
      Keeps-run _ db (register_user-Keeps d email password s) h
  step-keeps db (binds d user_id jwk label) h =
      Keeps-run _ db (register_device-Keeps d user_id jwk label) h
  step-keeps db (requests_reset d email m) h = Keeps-run _ db (create-Keeps d email m) h
  step-keeps db (confirms_reset d raw password) h = Keeps-run _ db (confirm-Keeps d raw password) h

  history-keeps :
      (db : Database) (cs : List Call) → IsUsed hashed db → IsUsed hashed (history crypto db cs)
  unfolding history
  history-keeps db [] h = h
  history-keeps db (c ∷ cs) h = history-keeps (step crypto db c) cs (step-keeps db c h)

Reset-IsUsed :
    (crypto : Crypto) (d : Draws) (raw password : String) (s u : Session) (user : User)
    → Reset crypto d raw password s u user
    → IsUsed (crypto.sha256 raw) u.committed
unfolding consistent set_password
Reset-IsUsed crypto d raw password s u user r =
    let used =
      mark_used-IsUsed (crypto.sha256 raw) r.token s.working (ground (arith, r.checked)) r.stored in
    subst (λ (t : Session). IsUsed (crypto.sha256 raw) t.committed) (sym r.left)
      (record { unusable = used.unusable; there = used.there })

-- What never returns raises.
Raises-unless {ℓ} : {A : Type ℓ} (r : Result A) → ((a : A) → r ≡ ok a → ⊥) → Raises r
Raises-unless (ok a) k = k a refl
Raises-unless (err e) k = tt

IsUsed-Raises :
    (crypto : Crypto) (d : Draws) (raw password : String) (db : Database)
    → IsUsed (crypto.sha256 raw) db
    → Raises (run (confirm_password_reset crypto d raw password) db).0
IsUsed-Raises crypto d raw password db h =
    let (r, s) = confirm_password_reset crypto d raw password (opened db) in
    Raises-unless (confirm_password_reset crypto d raw password (opened db)).0 λ user e.
      let reset = confirm_password_reset-ok crypto d raw password (opened db) (λ i. (e i, s)) in
      let found_one = reset.stored in
      let found_none = first-none_of_count _ db.reset_tokens h.unusable in
      cc (found_one, found_none)

-- After a reset with a token, and any requests of the password service, a reset with that token
-- raises.
pub reset_serves_once :
    (crypto : Crypto) (d d' : Draws) (raw_token password password' : String) (db db' : Database)
    (user : User) (later : List Call)
    → run (confirm_password_reset crypto d raw_token password) db ≡ (ok user, db')
    → Raises
        (run (confirm_password_reset crypto d' raw_token password') (history crypto db' later)).0
reset_serves_once crypto d d' raw_token password password' db db' user later h =
    let (u, r, left) =
      run-Returns (confirm_password_reset crypto d raw_token password) db db' user h in
    let used = subst (IsUsed (crypto.sha256 raw_token)) left (
      Reset-IsUsed crypto d raw_token password (opened db) u user
        (confirm_password_reset-ok crypto d raw_token password (opened db) r)) in
    IsUsed-Raises crypto d' raw_token password' _
      (history-keeps crypto (crypto.sha256 raw_token) db' later used)
