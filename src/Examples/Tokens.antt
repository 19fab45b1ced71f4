-- ===== src/Examples/Tokens.antt =====
-- Runs of the token verification and of what stands on it.
use h4ckrth0n.Prelude.{
  ◌≡◌, refl, ◌↔◌, String, true, none, some, List, [], ◌∷◌, first, all, contains,
}
use h4ckrth0n.Json.{Fields, str, num, end, field, lookup, truthy, equals_text}
use h4ckrth0n.Models.{User, Device}
use h4ckrth0n.Db.{Database, empty}
use h4ckrth0n.Http.{responds}
use h4ckrth0n.Text.Split.{join, lacks}
use h4ckrth0n.Text.{all_chars, append, lower}
use h4ckrth0n.Auth.Jwt.{
  Library, pem, payload, AuthContext, accepted, auth_error, Request, aud_http, ◌>>=◌,
  verify_device_jwt, authenticate_http_request, authenticate_websocket, authenticate_sse_request,
  drop_chars, is_bearer,
}
use h4ckrth0n.Auth.Jwt.Acceptance.{Accepts, accepted_iff}
use h4ckrth0n.Auth.Jwt.Audience.{one_transport, bearer_token, sse_token}
use h4ckrth0n.Auth.Jwt.Owner.{reassigned, all_disabled, owner_not_checked, disabled_not_checked}
use h4ckrth0n.Auth.Dependencies.{comma, require_scopes}
use h4ckrth0n.Auth.Dependencies.Access.{Authenticated, is_scope, scopes_iff}
use h4ckrth0n.Passkeys.Router.{FinishRequest}
use h4ckrth0n.Examples.{alice, site, response, half_binding}

abbrev claims : Fields
claims =
    field "sub" (str "u1")
      (field "iat" (num "1") (field "exp" (num "2") (field "aud" (str "h4ckath0n:http") end)))

-- Every text is a token of the device `d1` for the user `u1` over HTTP.
abbrev pub tokens : Library
tokens = record {
  unverified_header = λ t. some (field "kid" (str "d1") end);
  public_key = λ jwk. pem "key";
  decode = λ t key. payload claims;
  datetime = λ v. some 5;
}

abbrev pub device : Device
device = record {
  id = "d1";
  user_id = "u1";
  public_key_jwk = str "";
  fingerprint = none;
  label = none;
  created_at = 1;
  revoked_at = none;
}

abbrev pub scoped_user : User
scoped_user = record alice { scopes = "read,write"; role = "admin" }

abbrev pub office : Database
office = record empty { users = scoped_user ∷ []; devices = device ∷ [] }

abbrev alice_on_d1 : AuthContext
alice_on_d1 = record { user_id = "u1"; device_id = "d1" }

accepted_iff_example :
    (verify_device_jwt tokens "t" aud_http office ≡ accepted alice_on_d1)
    ↔ Accepts tokens "t" aud_http office alice_on_d1
accepted_iff_example = accepted_iff tokens "t" aud_http office alice_on_d1

verifies : verify_device_jwt tokens "t" aud_http office ≡ accepted alice_on_d1
unfolding verify_device_jwt ◌>>=◌ lookup truthy equals_text first
verifies = refl

abbrev by_header : Request
by_header = record { authorization = some "Bearer t"; token = none }

abbrev by_query : Request
by_query = record { authorization = none; token = some "t" }

same_header : bearer_token by_header ≡ "t"
unfolding drop_chars
same_header = refl

same_query : sse_token by_query ≡ "t"
unfolding is_bearer drop_chars lower
same_query = refl

one_transport_example :
    ¬ (
      (authenticate_http_request tokens by_header office ≡ accepted alice_on_d1)
      × (authenticate_websocket tokens by_query office ≡ accepted alice_on_d1))
    × ¬ (
        (authenticate_http_request tokens by_header office ≡ accepted alice_on_d1)
        × (authenticate_sse_request tokens by_query office ≡ accepted alice_on_d1))
    × ¬ (
        (authenticate_sse_request tokens by_query office ≡ accepted alice_on_d1)
        × (authenticate_websocket tokens by_query office ≡ accepted alice_on_d1))
one_transport_example =
    one_transport tokens office by_header by_query by_query alice_on_d1 alice_on_d1 alice_on_d1
      same_header same_query

owner_not_checked_example :
    verify_device_jwt tokens "t" aud_http (reassigned (λ d. "u2") office) ≡ accepted alice_on_d1
owner_not_checked_example =
    owner_not_checked tokens "t" aud_http office alice_on_d1 (λ d. "u2") verifies

disabled_not_checked_example :
    verify_device_jwt tokens "t" aud_http (all_disabled 3 office) ≡ accepted alice_on_d1
disabled_not_checked_example =
    disabled_not_checked tokens "t" aud_http office alice_on_d1 3 verifies

abbrev scopes : List String
scopes = "read" ∷ "write" ∷ []

abbrev needed : List String
needed = "write" ∷ []

scope_names : all is_scope scopes ≡ true
unfolding all lacks all_chars
scope_names = refl

scope_column : scoped_user.scopes ≡ join comma scopes
unfolding join append
scope_column = refl

scopes_iff_example : (require_scopes tokens needed "t" office office ≡ responds scoped_user) ↔ (
    Authenticated tokens "t" office office scoped_user
    × (all (λ s. contains s scopes) needed ≡ true))
scopes_iff_example =
    scopes_iff tokens "t" office office scoped_user needed scopes scope_names scope_column

no_devices : verify_device_jwt tokens "t" aud_http site ≡ auth_error "Unknown device"
unfolding verify_device_jwt ◌>>=◌ lookup truthy first
no_devices = refl

abbrev finish : FinishRequest
finish = record { flow_id = "f1"; credential = response; binding = half_binding }
