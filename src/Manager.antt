-- ===== src/Manager.antt =====
-- src/job_manager.h: the manager of a job. `State` has its members and `BuildDependencies`, `Handlers` its
-- three handlers.
pub mod State
pub mod Handlers
pub mod Admission
pub mod Counters
pub mod Dependencies
pub mod Effects
pub mod Requests
pub mod Life
pub mod Tests
