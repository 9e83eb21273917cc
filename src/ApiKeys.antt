-- ===== src/ApiKeys.antt =====
-- apps/api_keys/ and the gateway's own copy of it, deploy/gateway/gateway/crypto_auth.py.
pub mod Parsing
pub mod Model
pub mod Auth
pub mod Lifecycle
mod Tests
