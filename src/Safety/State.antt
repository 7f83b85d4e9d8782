-- ===== src/Safety/State.antt =====
-- The state of src/tasks/safety_task.c, what it reads in a tick and what it sends.
use open_evcharger.Prelude.{ℕ, Bool, true, false, List, []}
use open_evcharger.Prelude.Int.{ℤ}
use open_evcharger.Core.Fault
use open_evcharger.Core.Fault.{FaultState}
use open_evcharger.Core.J1772.{J1772State}

-- `evse_state_t`
pub data EvseState : Type 0 where
  boot self_test ready charging user_paused cooling_down fault : EvseState

abbrev pub is_fault : EvseState → Bool
is_fault fault = true
is_fault _ = false

abbrev pub is_charging : EvseState → Bool
is_charging charging = true
is_charging _ = false

abbrev pub is_ready : EvseState → Bool
is_ready ready = true
is_ready _ = false

abbrev pub is_paused : EvseState → Bool
is_paused user_paused = true
is_paused _ = false

abbrev pub is_cooling : EvseState → Bool
is_cooling cooling_down = true
is_cooling _ = false

abbrev pub is_boot : EvseState → Bool
is_boot boot = true
is_boot _ = false

abbrev pub is_self_test : EvseState → Bool
is_self_test self_test = true
is_self_test _ = false

-- The C test `x == y` on two states.
abbrev pub same_evse : EvseState → EvseState → Bool
same_evse boot s = is_boot s
same_evse self_test s = is_self_test s
same_evse ready s = is_ready s
same_evse charging s = is_charging s
same_evse user_paused s = is_paused s
same_evse cooling_down s = is_cooling s
same_evse fault s = is_fault s

-- What the control pilot is driven with (`cp_pwm_set_*`).
pub data CpOut : Type 0 where
  state_f idle_high : CpOut
  advertise : ℕ → CpOut

-- `struct safety_req`: the request types of the inbox, with the arguments that each uses.
pub data Request : Type 0 where
  clear_fault : ℕ → Request
  user_pause : ℕ → Request
  user_resume rfid_learn_arm publish_rfid_config simulate_replug : Request
  run_gfci_cal_test publish_gfci_policy : Request

-- `session_end_reason_t`
pub data EndReason : Type 0 where
  normal faulted other : EndReason

-- `RFID_AUTH_RESULT_*`
pub data AuthResult : Type 0 where
  learned start stop matched_noop rejected list_full : AuthResult

-- The fields of `struct session_record` that the supervisor fills.
pub record SessionRecord : Type 0 where
  pub start_ts : ℕ
  pub end_ts : ℕ
  pub mwh_delivered : ℕ
  pub end_reason : EndReason
  pub j1772_max_state_seen : J1772State
  pub fault_count : ℕ
  pub max_temp_dc : ℕ

-- What the supervisor hands to the comms and persist tasks. Whether their queues take it does not
-- change what the supervisor does next.
pub data Output : Type 0 where
  session_began : ℕ → Output
  session_logged : SessionRecord → Output
  session_ended : ℕ → ℕ → EndReason → Output
  fault_logged : ℕ → J1772State → EvseState → ℤ → Output
  fault_raised : ℕ → J1772State → EvseState → ℤ → Output
  fault_cleared : ℕ → Output
  state_changed : J1772State → Output
  rfid_config : Bool → Bool → Output
  gfci_policy : ℕ → Output
  diag_adc : ℕ → J1772State → EvseState → Output
  rfid_swipe : ℕ → Bool → Output
  rfid_auth_result : ℕ → AuthResult → Output
  authlist_add : ℕ → Output
  boot_complete : Bool → ℕ → Output

-- The static `s_session`. `mws_accum` only ever grows by positive amounts from 0, so a natural
-- number stands for the `int64_t`; at most 2^27 are added every 400 ms.
pub record Session : Type 0 where
  pub active : Bool
  pub start_ts : ℕ  -- uint32_t
  pub j1772_max : J1772State
  pub fault_count : ℕ  -- uint16_t
  pub max_temp_dc : ℕ
  pub mws_accum : ℕ

-- The readings of the metering chip that the supervisor uses (`struct bl0939_readings`).
pub record Bl0939 : Type 0 where
  pub valid : Bool
  pub v_rms : ℕ  -- uint32_t
  pub ia_rms : ℕ  -- uint32_t
  pub a_watt : ℤ  -- int32_t

-- The build flags: OPENEVCHARGER_PE_CONTINUITY_DETECTOR, OPENEVCHARGER_CC_DETECTOR,
-- OPENEVCHARGER_RELAY_FEEDBACK_KNOWN, OPENEVCHARGER_GFCI_CAL_SELF_TEST, and the NTC masks.
pub record Build : Type 0 where
  pub pe_detector : Bool
  pub cc_detector : Bool
  pub relay_feedback : Bool
  pub gfci_cal : Bool
  pub ntc1_present : Bool
  pub gun_ntc_present : Bool

-- What the supervisor reads during one tick: pins, converters, the clock, the persisted settings,
-- the metering chip and the card reader. Each is constant over the tick.
pub record Env : Type 0 where
  pub build : Build
  pub now : ℕ  -- xTaskGetTickCount(), in milliseconds
  pub cp_mv : ℤ
  pub dip1_closed : Bool
  pub advertised_amps : ℕ  -- uint8_t
  pub require_rfid_auth : Bool
  pub gfci_fault_policy : ℕ  -- uint8_t
  pub safe_fail : Bool
  pub gfci_window : Bool  -- gfci_in_handshake_window()
  pub gfci_line : Bool  -- gfci_fault_active()
  pub gfci_self_test_rc : ℤ
  pub gfci_refresh_created : Bool  -- xTaskCreate() returned pdPASS
  pub sense_closed : Bool  -- relay_main_sense_closed()
  pub adc : ℕ → ℕ  -- a uint16_t for each rank
  pub bl : Bl0939
  pub ia_na_per_raw : ℤ  -- int16_t
  pub pa_uw_per_raw : ℤ  -- int16_t
  pub rx : List ℕ  -- the bytes that rfid_rx_pop() gives
  pub authlist_contains : ℕ → Bool
  pub authlist_count : ℕ

-- The supervisor's variables that more than one of its functions writes, with the relay driver's.
-- `out` holds what was sent, the latest first.
pub record Sup : Type 0 where
  pub fs : FaultState
  pub es : EvseState
  pub relay_cmd : Bool
  pub force_open : Bool
  pub cp_out : CpOut
  pub session : Session
  pub soc_derate_amps : ℕ  -- uint8_t
  pub rfid_learn_ticks : ℕ  -- uint16_t
  pub replug_window_ticks : ℕ  -- uint16_t
  pub session_authorized : Bool
  pub inbox : List Request
  pub out : List Output

abbrev pub no_session : Session
no_session = record {
  active = false;
  start_ts = 0;
  j1772_max = J1772State.invalid;
  fault_count = 0;
  max_temp_dc = 0;
  mws_accum = 0;
}

-- The values at the start of the task. The relay driver starts open and unlatched.
unfoldable pub boot_sup : Sup
unfolding Fault.init
boot_sup = record {
  fs = Fault.init;
  es = boot;
  relay_cmd = false;
  force_open = false;
  cp_out = idle_high;
  session = no_session;
  soc_derate_amps = 0;
  rfid_learn_ticks = 0;
  replug_window_ticks = 0;
  session_authorized = false;
  inbox = [];
  out = [];
}
