-- ===== src/Spine.antt =====
-- harness/src/spine: the invariant ledger, the action surface and the executor.
pub mod Ledger
pub mod Actions
pub mod Effects
pub mod Executor
