-- ===== src/Auth/Jwt/Owner.antt =====
-- What a verdict does not look at: whose device signed the token, and whether the user is disabled.
use h4ckrth0n.Prelude.{◌≡◌, refl, ap, ◌∙◌, String, some, map, ◌==◌}
use h4ckrth0n.Prelude.Rows.{first-map, changed}
use h4ckrth0n.Json.{equals_text}
use h4ckrth0n.Models.{Time, Device, User}
use h4ckrth0n.Db.{Database}
use h4ckrth0n.Auth.Jwt.{Library, accepted, AuthContext, verify_device_jwt}
use h4ckrth0n.Auth.Jwt.Acceptance.{accepted_iff}

-- The database with its devices given to other users.
abbrev pub reassigned : (Device → String) → Database → Database
reassigned owner db = record db {
  devices = map (λ (d : Device). record d { user_id = owner d }) db.devices;
}

-- The database with all users disabled.
abbrev pub all_disabled : Time → Database → Database
all_disabled now db = record db {
  users = map (λ (u : User). record u { disabled_at = some now }) db.users;
}

-- A token stays accepted, as the same user, whomever the devices are given to: the owner of the
-- signing device is not compared with the subject.
pub owner_not_checked :
    (library : Library) (raw_jwt aud : String) (db : Database) (ctx : AuthContext)
    (owner : Device → String)
    → verify_device_jwt library raw_jwt aud db ≡ accepted ctx
    → verify_device_jwt library raw_jwt aud (reassigned owner db) ≡ accepted ctx
owner_not_checked library raw_jwt aud db ctx owner h =
    let a = (accepted_iff library raw_jwt aud db ctx).0 h in
    let give = λ (d : Device). record d { user_id = owner d } in
    (accepted_iff library raw_jwt aud (reassigned owner db) ctx).1 (record {
      kid = a.kid;
      device = give a.device;
      key = a.key;
      fields = a.fields;
      claims = a.claims;
      user = a.user;
      named = a.named;
      not_empty = a.not_empty;
      registered =
          first-map (λ d. equals_text d.id a.kid) give db.devices (λ x. refl)
          ∙ ap (changed give) a.registered;
      not_revoked = a.not_revoked;
      key_read = a.key_read;
      verified = a.verified;
      typed = a.typed;
      audience = a.audience;
      audience_given = a.audience_given;
      known = a.known;
      identity = a.identity;
    })

-- A token stays accepted, as the same user, when all users are disabled.
pub disabled_not_checked :
    (library : Library) (raw_jwt aud : String) (db : Database) (ctx : AuthContext) (now : Time)
    → verify_device_jwt library raw_jwt aud db ≡ accepted ctx
    → verify_device_jwt library raw_jwt aud (all_disabled now db) ≡ accepted ctx
disabled_not_checked library raw_jwt aud db ctx now h =
    let a = (accepted_iff library raw_jwt aud db ctx).0 h in
    let disable = λ (u : User). record u { disabled_at = some now } in
    (accepted_iff library raw_jwt aud (all_disabled now db) ctx).1 (record {
      kid = a.kid;
      device = a.device;
      key = a.key;
      fields = a.fields;
      claims = a.claims;
      user = disable a.user;
      named = a.named;
      not_empty = a.not_empty;
      registered = a.registered;
      not_revoked = a.not_revoked;
      key_read = a.key_read;
      verified = a.verified;
      typed = a.typed;
      audience = a.audience;
      audience_given = a.audience_given;
      known =
          first-map (λ u. u.id == a.claims.sub) disable db.users (λ x. refl)
          ∙ ap (changed disable) a.known;
      identity = a.identity;
    })
