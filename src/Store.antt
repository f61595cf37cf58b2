-- ===== src/Store.antt =====
-- internal/store: what PostgreSQL holds, and the transactions on it.
pub mod Access
pub mod Verification
pub mod Entries
