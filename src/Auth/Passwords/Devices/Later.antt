-- ===== src/Auth/Passwords/Devices/Later.antt =====
-- The device of a key is that of the key for good.
use h4ckrth0n.Prelude.{
  ℕ, ◌≡◌, ◌≢◌, refl, subst, ◌∙◌, String, Option, none, some, List, [], ◌∷◌, is_none, is_text, first,
}
use h4ckrth0n.Prelude.Rows.{first-append}
use h4ckrth0n.Json.{Fields, end, field}
use h4ckrth0n.Models.{User, PasswordResetToken, Device}
use h4ckrth0n.Config.{Settings}
use h4ckrth0n.Result.{ok}
use h4ckrth0n.Db.{Database}
use h4ckrth0n.Db.Session.{run, modify}
use h4ckrth0n.Db.Session.Laws.{run-Returns}
use h4ckrth0n.Db.Session.Keeps.{Keeps, Keeps-modify, Keeps-run, keeps_rules}
use h4ckrth0n.Auth.Passwords.{
  Crypto, Draws, mark_used, set_password, add_user, add_device, add_token, register_user,
  key_material, device_by_fingerprint, add_new_device, register_device, store_token,
  create_password_reset_token, confirm_password_reset,
}
use h4ckrth0n.Auth.Passwords.Devices.{
  Bound, register_device-ok, register_device-Bound, fingerprint-material,
}
use h4ckrth0n.Auth.Passwords.Resets.Once.{
  Call, registers, binds, requests_reset, confirms_reset, step, history,
}

-- The device that stands for a fingerprint.
abbrev Stands : String → Device → Database → Type 0
Stands fp device db = device_by_fingerprint fp db ≡ some device

module _ (crypto : Crypto) (fp : String) (device : Device) where
  added-Stands :
      (new : Device) (db : Database) → Stands fp device db → Stands fp device (add_device new db)
  unfolding first
  added-Stands new db h =
      first-append (λ d. is_text d.fingerprint fp) db.devices (new ∷ []) ∙ rw (h, is_none) refl

  used-Stands :
      (prt : PasswordResetToken) (db : Database)
      → Stands fp device db
      → Stands fp device (mark_used prt db)
  unfolding mark_used
  used-Stands prt db h = h

  set-Stands :
      (hash : String) (user : User) (db : Database)
      → Stands fp device db
      → Stands fp device (set_password hash user db)
  unfolding set_password
  set-Stands hash user db h = h

  new_device-Keeps : (new : Device) → Keeps (Stands fp device) (modify (add_device new))
  new_device-Keeps new = Keeps-modify _ (added-Stands new)

  new_user-Keeps : (user : User) → Keeps (Stands fp device) (modify (add_user user))
  new_user-Keeps user = Keeps-modify _ (λ db h. h)

  new_token-Keeps : (t : PasswordResetToken) → Keeps (Stands fp device) (modify (add_token t))
  new_token-Keeps t = Keeps-modify _ (λ db h. h)

  used-Keeps : (prt : PasswordResetToken) → Keeps (Stands fp device) (modify (mark_used prt))
  used-Keeps prt = Keeps-modify _ (used-Stands prt)

  set-Keeps :
      (hash : String) (user : User) → Keeps (Stands fp device) (modify (set_password hash user))
  set-Keeps hash user = Keeps-modify _ (set-Stands hash user)

  ruleset rows =
      (keeps_rules, new_device-Keeps, new_user-Keeps, new_token-Keeps, used-Keeps, set-Keeps)

  module _ (d : Draws) where
    registration-Keeps :
        (email password : String) (s : Settings)
        → Keeps (Stands fp device) (register_user crypto d email password s)
    unfolding register_user
    registration-Keeps email password s = search rows depth 20

    new_binding-Keeps :
        (user_id : String) (jwk : Fields) (label : Option String) (p : String) (o : Option Device)
        → Keeps (Stands fp device) (add_new_device crypto d user_id jwk label p o)
    unfolding add_new_device
    new_binding-Keeps user_id jwk label p none = search rows depth 20
    new_binding-Keeps user_id jwk label p (some found) = search rows depth 20

    binding-Keeps :
        (user_id : String) (jwk : Option Fields) (label : Option String)
        → Keeps (Stands fp device) (register_device crypto d user_id jwk label)
    unfolding register_device
    binding-Keeps user_id none label = search rows
    binding-Keeps user_id (some end) label = search rows
    binding-Keeps user_id (some (field k v fs)) label = search (rows, new_binding-Keeps) depth 20

    token-Keeps : (m : ℕ) (o : Option User) → Keeps (Stands fp device) (store_token crypto d m o)
    token-Keeps m none = search rows
    token-Keeps m (some user) = search rows depth 20

    request-Keeps :
        (email : String) (m : ℕ)
        → Keeps (Stands fp device) (create_password_reset_token crypto d email m)
    unfolding create_password_reset_token
    request-Keeps email m = search (rows, token-Keeps) depth 20

    reset-Keeps :
        (raw password : String)
        → Keeps (Stands fp device) (confirm_password_reset crypto d raw password)
    unfolding confirm_password_reset
    reset-Keeps raw password = search rows depth 20

  call-Stands :
      (db : Database) (c : Call) → Stands fp device db → Stands fp device (step crypto db c)
  unfolding step
  call-Stands db (registers d email password s) h =
      Keeps-run _ db (registration-Keeps d email password s) h
  call-Stands db (binds d user_id jwk label) h =
      Keeps-run _ db (binding-Keeps d user_id jwk label) h
  call-Stands db (requests_reset d email m) h = Keeps-run _ db (request-Keeps d email m) h
  call-Stands db (confirms_reset d raw password) h = Keeps-run _ db (reset-Keeps d raw password) h

  history-Stands :
      (db : Database) (cs : List Call)
      → Stands fp device db
      → Stands fp device (history crypto db cs)
  unfolding history
  history-Stands db [] h = h
  history-Stands db (c ∷ cs) h = history-Stands (step crypto db c) cs (call-Stands db c h)

-- A key is given one device: once a key was bound, and after any requests of the password service,
-- whoever binds a key of the same four fields, under whatever label, is given the same identifier,
-- and the database stays as it is.
pub one_device_per_key :
    (crypto : Crypto) (d d' : Draws) (user_id user_id' : String) (label label' : Option String)
    (jwk jwk' : Fields) (db db' : Database) (id : String) (later : List Call)
    → jwk ≢ end
    → key_material jwk' ≡ key_material jwk
    → run (register_device crypto d user_id (some jwk) label) db ≡ (ok id, db')
    → run (register_device crypto d' user_id' (some jwk') label') (history crypto db' later)
      ≡ (ok id, history crypto db' later)
one_device_per_key crypto d d' user_id user_id' label label' end jwk' db db' id later ne e h =
    absurd (ne refl)
one_device_per_key crypto d d' user_id user_id' label label' (field k v fs) jwk' db db' id later ne
      e h =
    let (u, r, left) =
      run-Returns (register_device crypto d user_id (some (field k v fs)) label) db db' id h in
    let b =
      subst (λ db. Bound crypto (field k v fs) db id) left
        (register_device-ok crypto d user_id label k v fs db r) in
    register_device-Bound crypto d' user_id' label' jwk' (history crypto db' later) id (record {
      fp = b.fp;
      device = b.device;
      read = fingerprint-material crypto (field k v fs) jwk' b.fp e b.read;
      stored = history-Stands crypto b.fp b.device db' later b.stored;
      named = b.named;
    })
