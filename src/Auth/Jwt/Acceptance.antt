-- ===== src/Auth/Jwt/Acceptance.antt =====
-- Which tokens are accepted, and whom they stand for.
use h4ckrth0n.Prelude.{
  ◌≡◌, refl, sym, ap, subst, ◌∙◌, Option-cases, inl, inr, ◌↔◌, String, Bool, true, false, Option,
  none, some, arith, ◌==◌, eq_iff, eq_refl, is_none, first,
}
use h4ckrth0n.Json.{Json, Fields, truthy, equals_text}
use h4ckrth0n.Models.{Device, User}
use h4ckrth0n.Db.{Database}
use h4ckrth0n.Auth.Jwt.{
  Library, Key, pem, malformed, unsupported, Decoded, payload, expired, invalid, JwtClaims, Verdict,
  accepted, auth_error, crashed, AuthContext, get_unverified_kid, claims_of, check_aud,
  verify_device_jwt, or_error, or_crash, require, key_or_error, payload_or_error, ◌>>=◌,
}

-- What stands behind an accepted token: a registered device that is not revoked, whose key the token
-- verifies under, claims for the audience, and a stored user of the subject's id.
pub record Accepts (library : Library) (raw_jwt aud : String) (db : Database) (ctx : AuthContext)
    : Type 0 where
  pub kid : Json
  pub device : Device
  pub key : String
  pub fields : Fields
  pub claims : JwtClaims
  pub user : User
  pub named : get_unverified_kid library raw_jwt ≡ some kid
  pub not_empty : truthy kid ≡ true
  pub registered : first (λ d. equals_text d.id kid) db.devices ≡ some device
  pub not_revoked : is_none device.revoked_at ≡ true
  pub key_read : library.public_key device.public_key_jwk ≡ pem key
  pub verified : library.decode raw_jwt key ≡ payload fields
  pub typed : claims_of library fields ≡ some claims
  pub audience : claims.aud ≡ some aud
  pub audience_given : (aud == "") ≡ false
  pub known : first (λ u. u.id == claims.sub) db.users ≡ some user
  pub identity : ctx ≡ record { user_id = user.id; device_id = device.id }

module _ {ℓ κ μ} {A : Type ℓ} {B : Type κ} {C : Type μ} where
  of_or_error :
      (o : Option A) (detail : String) (f : A → Verdict B) {b : B}
      → (or_error o detail >>= f) ≡ accepted b
      → ((a : A) → o ≡ some a → f a ≡ accepted b → C)
      → C
  unfolding ◌>>=◌
  of_or_error none detail f h k = absurd cc
  of_or_error (some a) detail f h k = k a refl h

  of_or_crash :
      (o : Option A) (f : A → Verdict B) {b : B}
      → (or_crash o >>= f) ≡ accepted b
      → ((a : A) → o ≡ some a → f a ≡ accepted b → C)
      → C
  unfolding ◌>>=◌
  of_or_crash none f h k = absurd cc
  of_or_crash (some a) f h k = k a refl h

module _ {κ μ} {B : Type κ} {C : Type μ} where
  of_require :
      (t : Bool) (detail : String) (f : Unit {0} → Verdict B) {b : B}
      → (require t detail >>= f) ≡ accepted b
      → (t ≡ true → f tt ≡ accepted b → C)
      → C
  unfolding ◌>>=◌
  of_require true detail f h k = k refl h
  of_require false detail f h k = absurd cc

  of_key :
      (x : Key) (f : String → Verdict B) {b : B}
      → (key_or_error x >>= f) ≡ accepted b
      → ((key : String) → x ≡ pem key → f key ≡ accepted b → C)
      → C
  unfolding ◌>>=◌
  of_key (pem key) f h k = k key refl h
  of_key malformed f h k = absurd cc
  of_key unsupported f h k = absurd cc

  of_payload :
      (x : Decoded) (f : Fields → Verdict B) {b : B}
      → (payload_or_error x >>= f) ≡ accepted b
      → ((fields : Fields) → x ≡ payload fields → f fields ≡ accepted b → C)
      → C
  unfolding ◌>>=◌
  of_payload (payload fields) f h k = k fields refl h
  of_payload expired f h k = absurd cc
  of_payload invalid f h k = absurd cc

module _ {κ μ} {B : Type κ} {C : Type μ} where
  of_check :
      (m : Verdict (Unit {0})) (f : Unit {0} → Verdict B) {b : B}
      → (m >>= f) ≡ accepted b
      → (m ≡ accepted tt → f tt ≡ accepted b → C)
      → C
  unfolding ◌>>=◌
  of_check (accepted v) f h k = k refl h
  of_check (auth_error detail) f h k = absurd cc
  of_check crashed f h k = absurd cc

context_of : AuthContext → Verdict AuthContext → AuthContext
context_of a (accepted b) = b
context_of a _ = a

accepted-injective : (a b : AuthContext) → accepted a ≡ accepted b → b ≡ a
unfolding context_of
accepted-injective a b h = λ i. context_of a (sym h i)

check_aud-ok :
    (claims : JwtClaims) (aud : String) {v : Unit {0}}
    → check_aud claims aud ≡ accepted v
    → (claims.aud ≡ some aud) × ((aud == "") ≡ false)
unfolding check_aud
check_aud-ok claims aud h = elim (Option-cases claims.aud) [
  | inl e ↦ absurd (let g = rw (e, check_aud) at h in cc)
  | inr (a, e) ↦
      let g = rw (e, check_aud) at h in
      let same : a ≡ aud = ground (arith, g, eq_iff a aud) in
      (e ∙ ap some same, subst (λ t. (t == "") ≡ false) same (ground (arith, g)))
]

module _ (library : Library) (raw_jwt aud : String) (db : Database) where
  accepted-Accepts :
      (ctx : AuthContext)
      → verify_device_jwt library raw_jwt aud db ≡ accepted ctx
      → Accepts library raw_jwt aud db ctx
  unfolding verify_device_jwt
  accepted-Accepts ctx h = of_or_error _ _ _ h λ kid named h₁. of_require _ _ _ h₁ λ not_empty h₂.
      of_or_error _ _ _ h₂ λ device registered h₃. of_require _ _ _ h₃ λ not_revoked h₄.
        of_key _ _ h₄ λ key key_read h₅. of_payload _ _ h₅ λ fields verified h₆.
          of_or_crash _ _ h₆ λ claims typed h₇. of_check _ _ h₇ λ checked h₈.
            of_or_error _ _ _ h₈ λ user known h₉. record {
              kid = kid;
              device = device;
              key = key;
              fields = fields;
              claims = claims;
              user = user;
              named = named;
              not_empty = not_empty;
              registered = registered;
              not_revoked = not_revoked;
              key_read = key_read;
              verified = verified;
              typed = typed;
              audience = (check_aud-ok claims aud checked).0;
              audience_given = (check_aud-ok claims aud checked).1;
              known = known;
              identity = accepted-injective _ _ h₉;
            }

  Accepts-accepted :
      (ctx : AuthContext)
      → Accepts library raw_jwt aud db ctx
      → verify_device_jwt library raw_jwt aud db ≡ accepted ctx
  unfolding verify_device_jwt check_aud ◌>>=◌
  Accepts-accepted ctx a =
      rw
        (
          a.named, or_error, a.not_empty, require, a.registered, a.not_revoked, a.key_read,
          key_or_error, a.verified, payload_or_error, a.typed, or_crash,
        )
        (rw (a.audience, check_aud, a.audience_given, eq_refl aud, a.known, or_error)
          (ap accepted (sym a.identity)))

-- A token is accepted for an audience, as an identity, exactly if there are a device that it names,
-- that is registered and not revoked, under whose key it decodes, claims of the program's form in
-- it with this audience, which is not empty, and a stored user whose id is the subject, and the
-- identity is that user with that device.
pub accepted_iff :
    (library : Library) (raw_jwt aud : String) (db : Database) (ctx : AuthContext)
    → (verify_device_jwt library raw_jwt aud db ≡ accepted ctx) ↔ Accepts library raw_jwt aud db ctx
accepted_iff library raw_jwt aud db ctx =
    (accepted-Accepts library raw_jwt aud db ctx, Accepts-accepted library raw_jwt aud db ctx)
