-- ===== src/Consumer.antt =====
-- pkg/consumer: the loops that keep the cache and the search index.
pub mod Cache
pub mod Search
