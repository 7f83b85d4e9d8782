-- ===== src/Tasks/Io.antt =====
-- The user interface's turn in the loop of src/tasks/io_task.c: the top button and the buzzer's patterns.
pub mod Alarm
use open_evcharger.Prelude.{
  ℕ, List, [], ◌∷◌, Bool, true, false, not, ◌&&◌, ◌||◌, if◌then◌else◌, ◌==◌, leb,
}
use open_evcharger.Prelude.Bits.{bit, and_bits}
use open_evcharger.Safety.State.{
  EvseState, boot, self_test, ready, charging, user_paused, cooling_down, fault, Request,
  user_pause, user_resume,
}
use open_evcharger.Ui.Buzzer.{
  Buzzer, Pattern, silent, boot_pass, boot_fail, session_start, session_end, fault_non_gfci,
  fault_gfci, buzzer_set_pattern, buzzer_tick,
}

-- The loop's variables `boot_buzz_armed`, `prev_charging`, `prev_fault` and `alive_posted`, and the buzzer.
pub record Io : Type 0 where
  pub boot_buzz_armed : Bool
  pub prev_charging : Bool
  pub prev_fault : ℕ
  pub alive_posted : Bool
  pub buzzer : Buzzer

-- What a turn sees: the snapshot's state and faults, whether the button event is `BTN_TOP`, and the time.
pub record Seen : Type 0 where
  pub evse : EvseState
  pub fault_active_bits : ℕ
  pub top_pressed : Bool
  pub ms : ℕ

unfoldable pub top_button : Seen → List Request
top_button x = if x.top_pressed then by_state x.evse else []
  where
    by_state : EvseState → List Request
    by_state ready = user_pause 1 ∷ []
    by_state charging = user_pause 1 ∷ []
    by_state user_paused = user_resume ∷ []
    by_state _ = []

unfoldable pub is_charging : EvseState → Bool
is_charging charging = true
is_charging _ = false

unfoldable pub is_booting : EvseState → Bool
is_booting boot = true
is_booting self_test = true
is_booting _ = false

unfoldable pub is_faulted : EvseState → Bool
is_faulted fault = true
is_faulted _ = false

-- The pattern for the end of the boot.
unfoldable pub boot_buzz : Io → Seen → Io
boot_buzz io x =
    let p = if is_faulted x.evse then boot_fail else boot_pass in
    if io.boot_buzz_armed && not (is_booting x.evse)
    then record io { buzzer = buzzer_set_pattern io.buzzer p; boot_buzz_armed = false }
    else io

-- The patterns for the start and the end of charging.
unfoldable pub charge_buzz : Io → Seen → Io
charge_buzz io x =
    let now = is_charging x.evse in
    let z1 =
      if now && not io.prev_charging
      then buzzer_set_pattern io.buzzer session_start
      else io.buzzer in
    let z2 = if not now && io.prev_charging then buzzer_set_pattern z1 session_end else z1 in
    record io { buzzer = z2; prev_charging = now }

-- The alarm at the rising edge of the latched faults, and its end at their falling edge.
unfoldable pub fault_buzz : Io → Seen → Io
fault_buzz io x =
    let alerting = and_bits 32 x.fault_active_bits 0xFFFE in
    let alarm = if bit alerting 1 == 1 then fault_gfci else fault_non_gfci in
    let z =
      if not (alerting == 0) && io.prev_fault == 0
      then buzzer_set_pattern io.buzzer alarm
      else if alerting == 0 && not (io.prev_fault == 0)
      then buzzer_set_pattern io.buzzer silent
      else io.buzzer in
    record io { buzzer = z; prev_fault = alerting }

-- One turn: the requests to the supervisor, whether the alive mark is posted, and the state.
unfoldable pub io_turn : Io → Seen → List Request × Bool × Io
io_turn io x =
    let io1 = fault_buzz (charge_buzz (boot_buzz io x) x) x in
    let io2 : Io = record io1 { buzzer = buzzer_tick io1.buzzer x.ms } in
    let mark = not io.alive_posted && leb 60000 x.ms in
    (top_button x, mark, record io2 { alive_posted = io.alive_posted || mark })
