-- ===== src/Task.antt =====
-- norn-task: the state machine and the life of one spawned task.
pub mod State
pub mod FutureCell
pub mod Cell
pub mod Queue
pub mod World
pub mod Spawn
pub mod Wakeups
pub mod Phases
pub mod Results
mod Tests
