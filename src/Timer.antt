-- ===== src/Timer.antt =====
-- norn-timer: the hierarchical timer wheel.
pub mod Ticks
pub mod Bits
pub mod Level
pub mod Wheels
pub mod Driver
pub mod Sleep
pub mod Runtime
mod Tests
