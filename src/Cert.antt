-- ===== src/Cert.antt =====
-- internal/mtccert: certificates whose signature is a Merkle tree proof.
pub mod Verify
mod Tests
