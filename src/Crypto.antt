-- ===== src/Crypto.antt =====
-- hj/crypto: ciphers, digests and their text forms.
pub mod Base64
