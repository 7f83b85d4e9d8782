-- ===== src/Safety.antt =====
-- The supervisor of the safety MCU: src/tasks/safety_task.c.
pub mod State
pub mod Session
pub mod Transition
pub mod Invariant
pub mod Detectors
pub mod Metering
pub mod Inbox
pub mod Swipe
pub mod Progress
pub mod Tick
pub mod Boot
pub mod Pilot
