-- ===== src/Omaha.antt =====
-- backend/pkg/omaha: the handler of Omaha requests.
pub mod Messages
pub mod Manifests
pub mod Handler
pub mod Tests
