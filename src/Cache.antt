-- ===== src/Cache.antt =====
-- pkg/repository/cache.go: the recent blocks and transactions, in lists of the redis server, and the totals, under a key
-- that expires. The server is a parameter, with the documented behaviour of its commands as hypotheses.
pub mod Redis
pub mod Recent
pub mod Totals
