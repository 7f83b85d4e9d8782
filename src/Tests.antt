-- ===== src/Tests.antt =====
-- Test data, tests, and the properties applied to concrete inputs.
mod Rules
mod Supervisor
mod Wire
mod Panel
mod Chip
mod Store
mod Records
mod Update
mod Logs
mod Duties
