-- ===== src/TaskStore.antt =====
-- src/core/task-store.ts: long tasks that outlive their client, with rolling logs, cancellation,
-- time limits, retention and an opaque tail cursor.
pub mod Types
pub mod Table
pub mod Store
pub mod Cursor
pub mod Client
pub mod CursorLaws
pub mod Tailing
pub mod TableLaws
pub mod ChangeLaws
pub mod Outcome
pub mod Shape
pub mod Room
pub mod Step
pub mod Invariant
pub mod Fate
pub mod Unclaimed
pub mod Lifecycle
pub mod Admission
pub mod Closing
mod Tests
mod ClientTests
