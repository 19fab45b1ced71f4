-- ===== src/Passkeys.antt =====
-- The passkey service of src/h4ckath0n/auth/passkeys/: what it takes from outside, the WebAuthn
-- wrapper, the challenge flows, the ceremonies and the management of credentials.
pub mod WebAuthn
pub mod Flows
pub mod Ceremonies
pub mod Management
pub mod Service
pub mod Interleaved
pub mod Router
