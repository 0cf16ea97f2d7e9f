-- ===== src/ProbeParser.antt =====
-- src/core/probe-parser.ts: what the fixed probes print on a target, read back into a report.
pub mod Types
pub mod Fields
pub mod Frame
pub mod FrameLaws
pub mod Facts
pub mod Ports
pub mod Containers
pub mod Report
pub mod Disk
pub mod Warnings
pub mod Verdict
pub mod Bounds
pub mod Grounds
pub mod GroundsLaws
pub mod Ready
mod Tests
