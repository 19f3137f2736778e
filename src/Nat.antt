-- ===== src/Nat.antt =====
-- internal/client/nat/nat.go: the one-to-one address translation, with checksums repaired in place.
pub mod Checksum
pub mod Rewrite
mod Tests
