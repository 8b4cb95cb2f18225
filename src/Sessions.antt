-- ===== src/Sessions.antt =====
-- backend/pkg/sessions: the cache of sessions with use counts (memcache/memcache.go), the session
-- objects (session.go) and the store that the HTTP middleware calls (store.go).
pub mod Tests
pub mod Cache
pub mod Session
