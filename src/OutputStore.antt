-- ===== src/OutputStore.antt =====
-- src/core/output-store.ts: the store of captured output. Modelled of it is the account of the
-- bytes that it retains.
pub mod Quota
mod Tests
