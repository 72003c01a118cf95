-- ===== src/Crypto.antt =====
-- internal/cryptoenv: the envelope that the relay reads, the manifest of a bundle, and the reference
-- implementation of the protocol. The JSON encoder and decoder of Go, AES-GCM, HKDF and X25519 are
-- parameters.
pub mod Json
pub mod Envelope
pub mod Names
pub mod Manifest
pub mod Reference
pub mod Tests
