-- ===== src/Resolver.antt =====
-- Package dns/resolver: the upstream lookups, their race, and the cache in front of them.
pub mod Answer
pub mod Chain
pub mod Lookup
pub mod Origin
pub mod Cache
pub mod Doh
pub mod Tests
