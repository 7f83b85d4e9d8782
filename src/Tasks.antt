-- ===== src/Tasks.antt =====
-- The tasks beside the supervisor: src/tasks/persist_task.c and src/tasks/comms_task.c.
pub mod Ota
pub mod Comms
pub mod Listing
pub mod Io
pub mod PersistTask
