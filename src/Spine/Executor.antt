-- ===== src/Spine/Executor.antt =====
-- harness/src/spine/executor.ts: `createExecutor`.
pub mod State
pub mod Steps
pub mod Publish
pub mod Dispatch
pub mod Serial
pub mod Budget
pub mod Session
pub mod Calls
pub mod Sending
pub mod Permits
pub mod Rights
pub mod Safety
pub mod Evidence
pub mod Provenance
