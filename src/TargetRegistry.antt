-- ===== src/TargetRegistry.antt =====
-- src/core/target-registry.ts: which targets there are and what a client may do on them.
pub mod Types
pub mod Index
pub mod Authorize
pub mod IndexLaws
pub mod Grants
pub mod TransferGrants
mod Tests
