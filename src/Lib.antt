-- ===== src/Lib.antt =====
-- OpenEVCharger: the firmware of the safety MCU of an electric-vehicle charger.
--
-- The program is a set of FreeRTOS tasks. The supervisor, src/tasks/safety_task.c, runs every 20 ms: it
-- takes requests from its inbox, classifies the control pilot, runs the fault detectors, moves the state
-- of the charger, drives the contactor and the pilot, polls the metering chip every 20th tick and reads
-- the card reader. It uses the pure rules of src/core/. The comms task talks to the radio module in the
-- frames of src/proto/, and the persist task keeps records in flash with the checksums of src/persist/.
--
-- Which file models which part:
--   Core/Fault        src/core/fault.c: the bitmap of faults; fault_raise is `raise`, and so on
--   Core/J1772        src/core/j1772.c: j1772_step is `step`
--   Core/OverTemp     src/core/over_temp.h: over_temp_step is `step`
--   Core/GfciPolicy   src/core/gfci_policy.h: gfci_policy_step is `step`
--   Core/Rfid         src/core/rfid.c: rfid_feed is `feed`, its parser `try_parse_one`
--   Core/SystemTime   src/core/system_time.c
--   Safety/State      the variables of src/tasks/safety_task.c, what it reads and what it sends
--   Safety/Session    session_start, session_end, post_fault_event, effective_advertised_amps
--   Safety/Transition evse_transition, apply_relay_state, apply_cp_for_state, and the contactor driver
--                     src/hal/gd32f205/relay.c
--   Safety/Detectors  the detectors of every tick, each under its name in the source
--   Safety/Metering   the detectors of every poll of the metering chip, and the energy
--   Safety/Inbox      post_safety_req, process_request, drain_inbox
--   Safety/Progress   update_evse_from_j1772
--   Safety/Swipe      the card block of the loop
--   Safety/Tick       one round of the loop of safety_task_run
--   Safety/Boot       safety_task_run up to its loop; Boot/Reach has the runs from power-up
--   Safety/Pilot      src/hal/gd32f205/cp_pwm.c
--   Ui/Buttons        src/ui/buttons.c
--   Proto/Tlv         src/proto/tlv.c
--   Persist/Crc       src/persist/crc16.c and src/persist/crc.c
--   Persist/Bytes     the little-endian words of the records
--   Persist/Flash     what src/drivers/w25q.h offers, and what the chip promises of it: a parameter
--   Persist/Pingpong  src/persist/pingpong.c, over a flash
--   Persist/Slot      a durable record as its users see it, and the two-slot records as one
--   Persist/CrashState, Persist/Authlist, Persist/BootConfig
--                     src/persist/crash_state.c, rfid_authlist.c and boot_config.c, over such a record,
--                     with the layout of each record in its bytes
--   Persist/OtaStage  src/persist/ota_stage.c, over a flash
--   Persist/Calibration
--                     src/persist/calibration.c, with the copy of the slope that the interrupt reads
--   Persist/Log       src/persist/event_log.c and src/persist/session_log.c: one algorithm, `log_init`,
--                     `log_append` and `log_read_nth`, over the two layouts
--   Persist/BootCount src/persist/boot_count.c
--   Persist/Footprint which sectors of the flash each of these operations writes
--   Tasks/Listing     the answers of src/tasks/persist_task.c: cards, fault log, energy
--   Tasks/PersistTask one turn of persist_task_run: `handle`, over the state of all that is stored
--   Tasks/PersistTask/Queue
--                     the queue in front of it, with `post` and the turns that take from it
--   Tasks/Io          src/tasks/io_task.c: one turn of its loop
--   Ui/Buzzer, Ui/Led src/ui/buzzer.c and src/ui/led_patterns.c
--   Tasks/Ota         the update session of src/tasks/persist_task.c, over the stage and the settings
--   Tasks/Comms       src/tasks/comms_task.c: the reassembly of frames, `serve` for one run of the parsing loop
--                     and `receive` for one turn of the task, and the command handlers
--   Tests             test data and tests
--
-- How state is modelled: a C function that writes statics or pointers takes the state and returns it. The
-- supervisor's shared variables, with the contactor's command and its latch, are the record `Sup`, and a
-- streak that one detector owns is passed beside it. What a tick reads of pins, converters, settings, the
-- clock, the metering chip and the card reader is the record `Env`, arbitrary in every tick and constant
-- within one; code outside the repository is read through it only. What a task sends is a list. Words keep
-- their width: sums that can wrap are written with `% 2 ^ w`, counters that the source bounds are bounded
-- by the same test. A request that another task posts falls between two ticks.
--
-- Fuel: the parsing loop of the card reader runs on fuel 4, and a frame has at least 7 bytes of a buffer
-- of 16, so that the loop always ends by its own test; Core/Rfid/Bounds proves it. All other loops are
-- structural. The loops of the staging region run on fuel too: 257 turns for at most 256 sectors, a
-- turn for each byte written and for each byte read back; Persist/OtaStage proves that a loop that
-- reports success has done all its work. The loop of the comms task has 64 turns for at most 64 bytes;
-- Tasks/Comms/Drain proves that it ends by its own test.
--
-- The flash: a chip is a type with the operations read, erase and program of src/drivers/w25q.h. `Chip`
-- says what its data sheet promises, of all addresses, since those used stay within the chip; `Torn` says
-- what a cut or failed operation can leave behind, and a power
-- cut is an operation that does not return 0, behind which a store does nothing more. Tests/Chip has a
-- chip in memory that keeps both, and one that loses its power at every program. A log record and a card
-- list share sectors of the flash, as the source lays them out: Tasks/PersistTask keeps them together.
--
-- Not modelled: logging, the snapshot for the comms task, the watchdog, the keepalive of the reader, the
-- delivery of messages other than the supervisor's inbox and the persist task's queue, the heartbeat and
-- the dumps of the io task, the time in the record of a fault, the register drivers, and the programs
-- of other boards.
pub mod Prelude
pub mod Core
pub mod Safety
pub mod Proto
pub mod Persist
pub mod Tasks
pub mod Ui
mod Tests
