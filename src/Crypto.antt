-- ===== src/Crypto.antt =====
-- packages/crypto: texts of bytes, signatures by a shared secret, and JSON with one spelling. The
-- rotation of keys is in KeyRotation.
pub mod Bits
pub mod Hex
pub mod Hmac
pub mod Base64
pub mod Tokens
pub mod CanonicalJson
