-- ===== src/Worker.antt =====
-- src/worker: a worker, its processor and its two shared channels. `State` has the data, `Cpu` and
-- `Channel` the local queues, `Machine` the operations that the managers and the scheduler call.
pub mod State
pub mod Cpu
pub mod Channel
pub mod Machine
pub mod Returns
pub mod Numbers
pub mod Events
pub mod Kept
pub mod Tidy
pub mod Fit
pub mod Frame
pub mod Records
pub mod Tests
