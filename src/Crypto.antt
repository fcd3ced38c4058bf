-- ===== src/Crypto.antt =====
-- lib/ngtcp2_crypto.c: key material, nonces and transport parameters.
pub mod Nonce
pub mod Params
mod Tests
