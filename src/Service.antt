-- ===== src/Service.antt =====
-- internal/service: the operations that REST and MCP share.
pub mod Access
pub mod Cursor
pub mod Listing
pub mod Curation
pub mod Entries
