-- ===== src/Tests/Duties.antt =====
-- Runs of the persist task, the calibration, the lights and the alarm.
use open_evcharger.Prelude.{
  ℕ, List, [], ◌∷◌, ◌++◌, ◌≤◌, length, false, ◌/◌, ◌%◌, ◌≡◌, ◌≢◌, ◌<◌, refl, true, false, Option,
  none, some, if◌then◌else◌, ◌||◌, ◌&&◌, not, ◌==◌, ltb, inr, arith,
}
use open_evcharger.Prelude.Bits.{bit, and_bits}
use open_evcharger.Persist.Bytes.{zeros}
use open_evcharger.Persist.Slot.{Store}
use open_evcharger.Persist.Log.{total_records, event_layout, session_layout}
use open_evcharger.Persist.Log.Startup.{at_slot}
use open_evcharger.Persist.Calibration.{
  Calibration, CalState, cal_defaults, migrate, calibration_load, calibration_set_cp,
}
use open_evcharger.Persist.Calibration.Migration.{IsMigrated}
use open_evcharger.Persist.Calibration.Loads.{load-again}
use open_evcharger.Persist.Calibration.Slope.{
  cal_call, set_cp, cal_call-den, isr_copy, set_cp-retried,
}
use open_evcharger.Core.J1772.{J1772State}
use open_evcharger.Core.Fault.{gfci, is_active, any_latched_active}
use open_evcharger.Safety.State.{EvseState, is_fault}
use open_evcharger.Ui.Led.{LedInputs, alerting_bits, led_render, flash, fill_all, scaled_gamma}
use open_evcharger.Ui.Led.Alert.{is_red, faults_of, led_render-red}
use open_evcharger.Ui.Buzzer.{silent}
use open_evcharger.Tasks.Io.{Io, Seen}
use open_evcharger.Tasks.PersistTask.Queue.{
  PersistQueue, persist_queue_depth, Step, posts, turns, run, handle_all,
}
use open_evcharger.Tasks.PersistTask.Queue.Order.{run-in_order}
use open_evcharger.Tasks.PersistTask.{
  event, authlist_add, crash_state_reset, Stored, handle, config_slots, cal_slots, card_slots,
  crash_slots,
}
use open_evcharger.Tasks.PersistTask.Apart.{
  settings, scales, crashes, sessions_log, card_list, faults, owner, IsFine,
}
use open_evcharger.Tasks.PersistTask.Kept.{handle-kept}
use open_evcharger.Tests.Chip.{memory, memory-Chip}
use open_evcharger.Tests.Logs.{erased, log_at, event_one, size_one}

-- A store of one cell, and one whose writes fail.
abbrev cell : Store (Option Calibration) Calibration
cell = record { load = λ m. m; store = λ m r. (true, some r) }

abbrev broken : Store (Option Calibration) Calibration
broken = record { load = λ m. m; store = λ m r. (false, m) }

abbrev first_version : Calibration
first_version = record cal_defaults { version = 1; bl0939_ia_na_per_raw = 12 }

abbrev running : CalState
running = record {
  s_cal = cal_defaults;
  s_anchor_raw = 1462;
  s_slope_num = 3540;
  s_slope_den = 459;
}

load-again_example :
    let first = calibration_load cell running (some first_version) in
    let second = calibration_load cell running (some (migrate first_version)) in
    (first.0 ≡ true)
    × IsMigrated first_version first.1.s_cal
    × (first.1.s_cal ≡ migrate first_version)
    × (isr_copy first.1
        ≡ (first_version.cp_anchor_raw, first_version.cp_slope_num, first_version.cp_slope_den))
    × (first.2 ≡ (
        if first_version.version == 1 || first_version.version == 2
        then (cell.store (some first_version) first.1.s_cal).1
        else some first_version))
    × (second.0 ≡ true)
    × (second.1 ≡ first.1)
    × (some (migrate first_version) ≡ some (migrate first_version)
        → second.2 ≡ some (migrate first_version))
load-again_example =
    load-again cell running running (some first_version) (some (migrate first_version))
      first_version (omega arith) refl (inr refl)

cal_call-den_example :
    let r = cal_call cell (set_cp 1462 3540 0) running none in
    (r.1.s_slope_den ≢ 0) × (r.1.s_cal.cp_slope_den ≢ 0)
cal_call-den_example =
    cal_call-den cell running none (set_cp 1462 3540 0) (λ e. omega (arith, e))
      (λ e. omega (arith, e))

slope_failed : (calibration_set_cp broken running none 1500 3540 460).0 ≡ false
unfolding calibration_set_cp
slope_failed = refl

set_cp-retried_example :
    let r = calibration_set_cp broken running none 1500 3540 460 in
    (calibration_set_cp broken r.1 r.2 1500 3540 460 ≡ (true, r.1, r.2))
    × (isr_copy r.1 ≡ isr_copy running)
set_cp-retried_example =
    set_cp-retried broken running none 1500 3540 460 (λ e. omega (arith, e)) slope_failed

-- A ground fault while charging.
abbrev ground_fault : LedInputs
ground_fault = record {
  evse = EvseState.fault;
  j1772 = J1772State.c;
  fault_active_bits = 2;
  comms_degraded = 0;
  brightness_pct = 60;
  advertised_amps = 32;
  active_amps_x10 = 0;
  override_mode = 0;
  override_rgb = (0, 0, 0);
}

led_render-red_example :
    let period : ℕ = if is_active (faults_of ground_fault) gfci then 200 else 500 in
    is_red (led_render ground_fault 1250 7) ≡ (
      if any_latched_active (faults_of ground_fault)
      then ltb (1250 % period) (period / 2)
      else is_fault ground_fault.evse && (ground_fault.comms_degraded == 0 || not (7 % 3 == 0)))
led_render-red_example =
    led_render-red ground_fault 1250 7 (λ e. omega (arith, e)) (omega arith) (omega arith)

-- A tenth of a second later the ring is dark.
dark_half : is_red (led_render ground_fault 1350 7) ≡ false
unfolding led_render alerting_bits and_bits bit flash fill_all scaled_gamma
dark_half = refl

abbrev in_charge : Io
in_charge = record {
  boot_buzz_armed = false;
  prev_charging = true;
  prev_fault = 0;
  alive_posted = true;
  buzzer = record { pattern = silent; start_ms = 0; oneshot_ms = 0; pin = false };
}

abbrev trips : Seen
trips = record { evse = EvseState.fault; fault_active_bits = 2; top_pressed = false; ms = 90000 }

abbrev fresh : Stored (ℕ → ℕ)
fresh = record {
  flash = erased;
  s_ota = record {
    session_id = 0;
    expected_size = 0;
    expected_crc32 = 0;
    next_offset = 0;
    running_crc = 0xFFFFFFFF;
  };
  cfg = record {
    version = 1;
    fc41d_advertised_amps = 0;
    require_rfid_auth = 0;
    pending_ota_flag = 0;
    staged_image_size = 0;
    staged_image_crc32 = 0;
    gfci_fault_policy = 0;
  };
  crash = record { cs = record { version = 1; fast_restart_count = 0 }; safe_fail = false };
  cards = record { version = 1; count = 0; uids = zeros 28 };
  cal = running;
  events = log_at 0;
  sessions = log_at 0;
}

event-IsFine : IsFine (event event_one) fresh
unfolding IsFine
event-IsFine = (size_one, omega arith)

handle-kept_example :
    let q = event event_one in
    let m1 = (handle memory q fresh).1.flash in
    (owner q ≢ settings → (config_slots memory).load m1 ≡ (config_slots memory).load erased)
    × (owner q ≢ scales → (cal_slots memory).load m1 ≡ (cal_slots memory).load erased)
    × (owner q ≢ crashes → (crash_slots memory).load m1 ≡ (crash_slots memory).load erased)
    × (owner q ≢ sessions_log
        → (j : ℕ) → j < total_records session_layout
        → at_slot session_layout memory m1 j ≡ at_slot session_layout memory erased j)
    × (owner q ≢ card_list
        → owner q ≢ faults
        → (card_slots memory).load m1 ≡ (card_slots memory).load erased)
    × (owner q ≢ faults
        → owner q ≢ card_list
        → (j : ℕ) → j < total_records event_layout
        → at_slot event_layout memory m1 j ≡ at_slot event_layout memory erased j)
handle-kept_example = handle-kept memory memory-Chip (event event_one) fresh event-IsFine

abbrev idle : PersistQueue
idle = record { s_queue = []; s_overflow_warned = false }

abbrev busy : List Step
busy =
    posts (event event_one) ∷ posts (authlist_add 7) ∷ turns ∷ posts crash_state_reset ∷ turns ∷ []

run-in_order_example :
    let r = run memory busy idle fresh in
    (r.accepted ≡ r.handled ++ r.queue.s_queue)
    × (length r.queue.s_queue ≤ persist_queue_depth)
    × (handle_all memory r.handled fresh ≡ (r.sent, r.stored))
run-in_order_example = run-in_order memory busy idle fresh (omega arith)
