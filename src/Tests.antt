-- ===== src/Tests.antt =====
-- Concrete runs, and the theorems at concrete inputs.
mod Samples
mod Ledgers
mod Sessions
mod Approvals
mod Diffs
mod Drives
mod Gits
mod Places
mod Requests
mod Pipelines
mod Locks
mod Triages
