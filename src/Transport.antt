-- ===== src/Transport.antt =====
-- ahp/transport: the cache of responses.
pub mod Cache
