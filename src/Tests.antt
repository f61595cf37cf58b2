-- ===== src/Tests.antt =====
-- Runs of the model on concrete inputs, and the theorems at inputs that meet their hypotheses.
pub mod Data
pub mod Access
pub mod Policy
pub mod HttpAuth
pub mod Cursor
pub mod Verification
pub mod Curation
pub mod Listing
pub mod Entries
pub mod Histories
pub mod Agent
