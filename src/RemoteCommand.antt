-- ===== src/RemoteCommand.antt =====
-- src/core/remote-command.ts: the command that is run on a target, and what it is given to read.
pub mod Validate
pub mod Render
pub mod Quoting
pub mod Acceptance
pub mod Refusal
pub mod Wrapper
mod Tests
