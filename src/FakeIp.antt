-- ===== src/FakeIp.antt =====
-- internal/client/fakeip: the pool that hands out a fake IPv4 address for every domain.
pub mod Pool
mod Tests
