-- ===== src/Proto.antt =====
-- The wire protocol between the safety MCU and the radio module: src/proto/.
pub mod Tlv
