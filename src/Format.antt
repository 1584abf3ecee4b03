-- ===== src/Format.antt =====
-- internal/mtcformat/encoding.go: the wire formats.
pub mod Entry
pub mod Signatures
pub mod Proof
mod Tests
