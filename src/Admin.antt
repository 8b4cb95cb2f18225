-- ===== src/Admin.antt =====
-- backend/pkg/api/admin: the service behind the web interface, which edits the tables that the
-- runtime service reads.
pub mod Rows
pub mod Channels
pub mod Floors
pub mod Labels
pub mod Blacklists
pub mod Actions
pub mod Packages
pub mod Files
pub mod Groups
pub mod Consistent
pub mod Tests
pub mod ProductIds
pub mod Applications
