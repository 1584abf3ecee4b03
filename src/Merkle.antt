-- ===== src/Merkle.antt =====
-- internal/merkle/merkle.go: RFC 9162 trees over the issuance log.
pub mod Hash
pub mod Collision
pub mod Shape
pub mod TreeHash
pub mod Inclusion
pub mod Consistency
pub mod Nodes
pub mod Tiles
mod Tests
