-- ===== src/Auth.antt =====
-- Authentication and authorisation of requests by device-signed tokens, and password accounts.
pub mod Jwt
pub mod Dependencies
pub mod Passwords
pub mod Router
