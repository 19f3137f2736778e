-- ===== src/Nat46.antt =====
-- internal/client/nat46: the table that hands out a fake IPv4 address for an IPv6 host.
pub mod Table
mod Tests
