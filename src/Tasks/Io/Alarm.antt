-- ===== src/Tasks/Io/Alarm.antt =====
-- The alarm of src/tasks/io_task.c.
use open_evcharger.Prelude.{ℕ}
use open_evcharger.Prelude.Bits.{and_bits}
use open_evcharger.Ui.Buzzer.{Buzzer}
use open_evcharger.Tasks.Io.{Io, Seen}

abbrev pub alerting : Seen → ℕ
alerting x = and_bits 32 x.fault_active_bits 0xFFFE
