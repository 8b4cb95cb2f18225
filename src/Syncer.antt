-- ===== src/Syncer.antt =====
-- backend/pkg/syncer: new versions of the upstream channels become packages, floors and targets here.
pub mod Packages
pub mod Updates
pub mod Checks
pub mod Consistent
pub mod Rounds
pub mod Tests
