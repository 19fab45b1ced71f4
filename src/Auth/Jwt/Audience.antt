-- ===== src/Auth/Jwt/Audience.antt =====
-- A token is bound to one audience, so to one transport.
use h4ckrth0n.Prelude.{
  ◌≡◌, ◌≢◌, subst, String, some, Bool-cases, inl, inr, ◌==◌, eq_iff, first, if◌then◌else◌,
}
use h4ckrth0n.Json.{equals_text}
use h4ckrth0n.Db.{Database}
use h4ckrth0n.Auth.Jwt.{
  Library, accepted, AuthContext, Request, verify_device_jwt, authenticate_http_request,
  authenticate_sse_request, authenticate_websocket, aud_http, aud_ws, aud_sse, or_empty, drop_chars,
  is_bearer,
}
use h4ckrth0n.Auth.Jwt.Acceptance.{accepted_iff}

-- On one database a token is accepted for one audience at most.
pub one_audience :
    (library : Library) (raw_jwt a b : String) (db : Database) (x y : AuthContext)
    → verify_device_jwt library raw_jwt a db ≡ accepted x
    → verify_device_jwt library raw_jwt b db ≡ accepted y
    → a ≡ b
one_audience library raw_jwt a b db x y h k =
    let v = (accepted_iff library raw_jwt a db x).0 h in
    let w = (accepted_iff library raw_jwt b db y).0 k in
    let kids : v.kid ≡ w.kid = cc (v.named, w.named) in
    let registered =
      subst (λ kid. first (λ d. equals_text d.id kid) db.devices ≡ some v.device) kids
        v.registered in
    cc (
      registered, w.registered, v.key_read, w.key_read, v.verified, w.verified, v.typed, w.typed,
      v.audience, w.audience,
    )

-- The token that a bearer header carries.
abbrev pub bearer_token : Request → String
bearer_token request = drop_chars 7 (or_empty request.authorization)

http-verifies :
    (library : Library) (r : Request) (db : Database) (x : AuthContext)
    → authenticate_http_request library r db ≡ accepted x
    → verify_device_jwt library (bearer_token r) aud_http db ≡ accepted x
unfolding authenticate_http_request
http-verifies library r db x h = elim (Bool-cases (is_bearer (or_empty r.authorization))) [
  | inl e ↦ rw e at h
  | inr e ↦ absurd (let g = rw e at h in cc)
]

ws-verifies :
    (library : Library) (r : Request) (db : Database) (x : AuthContext)
    → authenticate_websocket library r db ≡ accepted x
    → verify_device_jwt library (or_empty r.token) aud_ws db ≡ accepted x
unfolding authenticate_websocket
ws-verifies library r db x h = elim (Bool-cases (or_empty r.token == "")) [
  | inl e ↦ absurd (let g = rw e at h in cc)
  | inr e ↦ rw e at h
]

-- The token that the stream transport reads.
abbrev pub sse_token : Request → String
sse_token r = if is_bearer (or_empty r.authorization) then bearer_token r else or_empty r.token

sse-verifies :
    (library : Library) (r : Request) (db : Database) (x : AuthContext)
    → authenticate_sse_request library r db ≡ accepted x
    → verify_device_jwt library (sse_token r) aud_sse db ≡ accepted x
unfolding authenticate_sse_request
sse-verifies library r db x h = elim (Bool-cases (sse_token r == "")) [
  | inl e ↦ absurd (let g = rw e at h in cc)
  | inr e ↦ rw e at h
]

audiences_differ : (aud_http ≢ aud_ws) × (aud_http ≢ aud_sse) × (aud_ws ≢ aud_sse)
audiences_differ = (
  λ e. absurd (let t = (eq_iff aud_http aud_ws).1 e in cc),
  λ e. absurd (let t = (eq_iff aud_http aud_sse).1 e in cc),
  λ e. absurd (let t = (eq_iff aud_ws aud_sse).1 e in cc),
)

-- The token of a request that the HTTP transport accepts is accepted by neither of the two others,
-- in whatever request it comes, and a token that the stream transport accepts is not accepted by
-- the socket transport.
pub one_transport :
    (library : Library) (db : Database) (h w s : Request) (x y z : AuthContext)
    → bearer_token h ≡ or_empty w.token
    → sse_token s ≡ or_empty w.token
    → ¬ (
        (authenticate_http_request library h db ≡ accepted x)
        × (authenticate_websocket library w db ≡ accepted y))
      × ¬ (
          (authenticate_http_request library h db ≡ accepted x)
          × (authenticate_sse_request library s db ≡ accepted z))
      × ¬ (
          (authenticate_sse_request library s db ≡ accepted z)
          × (authenticate_websocket library w db ≡ accepted y))
one_transport library db h w s x y z hw sw =
    let t = or_empty w.token in
    let as_http = λ (p : authenticate_http_request library h db ≡ accepted x).
      subst (λ t. verify_device_jwt library t aud_http db ≡ accepted x) hw
        (http-verifies library h db x p) in
    let as_sse = λ (p : authenticate_sse_request library s db ≡ accepted z).
      subst (λ t. verify_device_jwt library t aud_sse db ≡ accepted z) sw
        (sse-verifies library s db z p) in
    let as_ws = ws-verifies library w db y in
    (
      λ p.
          audiences_differ.0
            (one_audience library t aud_http aud_ws db x y (as_http p.0) (as_ws p.1)),
      λ p.
          audiences_differ.1
            (one_audience library t aud_http aud_sse db x z (as_http p.0) (as_sse p.1)),
      λ p.
          audiences_differ.2
            (one_audience library t aud_ws aud_sse db y z (as_ws p.1) (as_sse p.0)),
    )
