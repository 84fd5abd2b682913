-- ===== src/Cache.antt =====
-- The caches of cache/.
pub mod Sets
pub mod Memory
pub mod Backend
pub mod Ttl
