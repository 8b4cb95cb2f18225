-- ===== src/Reads.antt =====
-- backend/pkg/api/internal/dbreads: the read queries.
pub mod Outside
pub mod Groups
pub mod Lookups
pub mod Applications
pub mod Floors
pub mod Stats
pub mod Instances
