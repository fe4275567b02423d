-- ===== src/Crypto.antt =====
-- crates/dlp-crypto: the record cipher's associated data and the nonce tracker (aead.rs), and the
-- verification of configuration signatures (lib.rs).
pub mod Aead
pub mod Verifier
