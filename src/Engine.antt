-- ===== src/Engine.antt =====
-- internal/engine: one analysis for each vCenter source, and the manager of all sources.
pub mod Data
pub mod Source
pub mod Loop
pub mod Manager
pub mod Sessions
pub mod Duration
pub mod Reopening
pub mod Pause
pub mod Workers
pub mod Stopping
pub mod Closing
pub mod Admission
mod Tests
