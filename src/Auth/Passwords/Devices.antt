-- ===== src/Auth/Passwords/Devices.antt =====
-- The identity of a device is that of its key.
pub mod Later
use h4ckrth0n.Prelude.{
  ◌≡◌, ◌≢◌, refl, sym, ap, ◌∙◌, subst, inl, inr, Option-cases, String, Option, none, some, [], ◌∷◌,
  eq_refl, first, is_none, is_text,
}
use h4ckrth0n.Prelude.Rows.{first-append}
use h4ckrth0n.Json.{Json, Fields, end, field, lookup}
use h4ckrth0n.Models.{Device}
use h4ckrth0n.Result.{ok, err, value_error}
use h4ckrth0n.Ids.{new_device_id}
use h4ckrth0n.Db.{Database}
use h4ckrth0n.Db.Session.{Session, ◌>>=◌, opened, run}
use h4ckrth0n.Db.Session.Laws.{
  Returns, of_lift, of_query, of_modify, of_commit, pure-ok, run-Returns,
}
use h4ckrth0n.Auth.Passwords.{
  Crypto, Draws, new_device, add_device, key_material, missing_fields, jwk_fingerprint,
  device_by_fingerprint, add_new_device, register_device,
}

-- The row that stands for a key.
pub record Bound (crypto : Crypto) (jwk : Fields) (db : Database) (id : String) : Type 0 where
  pub fp : String
  pub device : Device
  pub read : jwk_fingerprint crypto jwk ≡ ok fp
  pub stored : device_by_fingerprint fp db ≡ some device
  pub named : device.id ≡ id

added_is_found :
    (fp : String) (device : Device) (db : Database)
    → device.fingerprint ≡ some fp
    → device_by_fingerprint fp db ≡ none
    → device_by_fingerprint fp (add_device device db) ≡ some device
unfolding first
added_is_found fp device db named e =
    first-append (λ d. is_text d.fingerprint fp) db.devices (device ∷ [])
    ∙ rw (e, is_none, named, is_text, eq_refl fp)

module _ (crypto : Crypto) (d : Draws) (user_id : String) (label : Option String) where
  add_new_device-ok :
      (jwk : Fields) (fp : String) (o : Option Device) (s : Session) {id : String} {u : Session}
      → jwk_fingerprint crypto jwk ≡ ok fp
      → device_by_fingerprint fp s.working ≡ o
      → s.committed ≡ s.working
      → Returns (add_new_device crypto d user_id jwk label fp o s) id u
      → Bound crypto jwk u.committed id
  unfolding add_new_device
  add_new_device-ok jwk fp (some device) s {id} {u} read e clean h =
      let (same, left) = pure-ok _ s h in
      record {
        fp = fp;
        device = device;
        read = read;
        stored =
            subst (λ (db : Database). device_by_fingerprint fp db ≡ some device)
              (sym (ap (λ (t : Session). t.committed) left ∙ clean)) e;
        named = sym same;
      }
  add_new_device-ok jwk fp none s {id} {u} read e clean h =
      of_lift (new_device_id d.stream) _ s h λ new generated h₁. of_modify _ _ s h₁ λ h₂.
        of_commit _ _ h₂ λ checked h₃.
          let (same, left) = pure-ok _ _ h₃ in
          record {
            fp = fp;
            device = new_device d new user_id jwk label fp;
            read = read;
            stored =
                subst
                  (λ (t : Session).
                    device_by_fingerprint fp t.committed
                    ≡ some (new_device d new user_id jwk label fp))
                  (sym left) (added_is_found fp _ s.working refl e);
            named = sym same;
          }

  -- What a returning registration of a key leaves behind.
  pub register_device-ok :
      (k : String) (v : Json) (fs : Fields) (db : Database) {id : String} {u : Session}
      → Returns (register_device crypto d user_id (some (field k v fs)) label (opened db)) id u
      → Bound crypto (field k v fs) u.committed id
  unfolding register_device
  register_device-ok k v fs db h =
      of_lift (jwk_fingerprint crypto (field k v fs)) _ (opened db) h λ fp read h₁.
        of_query (device_by_fingerprint fp) _ (opened db) h₁
          λ h₂. add_new_device-ok (field k v fs) fp _ (opened db) read refl refl h₂

-- The fingerprint is that of the four fields.
pub fingerprint-material :
    (crypto : Crypto) (jwk other : Fields) (fp : String)
    → key_material other ≡ key_material jwk
    → jwk_fingerprint crypto jwk ≡ ok fp
    → jwk_fingerprint crypto other ≡ ok fp
unfolding jwk_fingerprint
fingerprint-material crypto jwk other fp e h = elim (Option-cases (key_material jwk)) [
  | inl n ↦ absurd (let g = rw (jwk_fingerprint, n) at h in cc)
  | inr (m, n) ↦ let g = rw (jwk_fingerprint, n) at h in rw (jwk_fingerprint, e ∙ n) g
]

no_fields : (crypto : Crypto) (fp : String) → jwk_fingerprint crypto end ≢ ok fp
unfolding jwk_fingerprint key_material lookup
no_fields crypto fp h = cc

pub register_device-Bound :
    (crypto : Crypto) (d : Draws) (user_id : String) (label : Option String) (jwk : Fields)
    (db : Database) (id : String) (b : Bound crypto jwk db id)
    → run (register_device crypto d user_id (some jwk) label) db ≡ (ok id, db)
unfolding register_device add_new_device ◌>>=◌
register_device-Bound crypto d user_id label end db id b = absurd (no_fields crypto b.fp b.read)
register_device-Bound crypto d user_id label (field k v fs) db id b = rw (b.read, b.stored, b.named)

unread :
    (crypto : Crypto) (jwk : Fields)
    → key_material jwk ≡ none
    → jwk_fingerprint crypto jwk ≡ err (value_error (missing_fields jwk))
unfolding jwk_fingerprint
unread crypto jwk e = rw (jwk_fingerprint, e)

-- A key without one of the four fields is refused before anything is asked or stored.
pub register_device-raises :
    (crypto : Crypto) (d : Draws) (user_id : String) (label : Option String) (k : String) (v : Json)
    (fs : Fields) (s : Session)
    → key_material (field k v fs) ≡ none
    → register_device crypto d user_id (some (field k v fs)) label s
      ≡ (err (value_error (missing_fields (field k v fs))), s)
unfolding register_device ◌>>=◌
register_device-raises crypto d user_id label k v fs s e = rw (unread crypto (field k v fs) e)
