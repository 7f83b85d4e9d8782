-- ===== src/Core.antt =====
-- The chip-neutral core of the safety MCU: src/core.
pub mod Fault
pub mod J1772
pub mod OverTemp
pub mod GfciPolicy
pub mod Rfid
pub mod SystemTime
