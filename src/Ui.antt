-- ===== src/Ui.antt =====
-- The user interface of the charger: src/ui/.
pub mod Buttons
pub mod Buzzer
pub mod Led
