-- ===== src/Runtime.antt =====
-- backend/pkg/api/runtime: the service that registers instances, grants updates and takes events.
pub mod Tests
pub mod Groups
pub mod Activity
pub mod Instances
pub mod Rollout
pub mod Updates
pub mod Events
pub mod Sound
pub mod Service
