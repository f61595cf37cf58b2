-- ===== src/Domain.antt =====
-- internal/domain: the knowledge model that the store, the service and the transports share.
pub mod Segments
pub mod Actor
pub mod Access
pub mod Trust
pub mod Content
