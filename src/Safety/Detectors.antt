-- ===== src/Safety/Detectors.antt =====
-- The detectors that src/tasks/safety_task.c runs on every tick. A C `int *` streak is the second
-- part of the argument and of the result.
pub mod Laws
use open_evcharger.Prelude.{
  ℕ, ◌+◌, Bool, true, false, not, ◌&&◌, ◌||◌, if◌then◌else◌, ltb, leb, ◌==◌,
}
use open_evcharger.Prelude.Int.{ℤ, pos}
use open_evcharger.Core.Fault
use open_evcharger.Core.J1772.{J1772State, same, invalid, b, c, e}
use open_evcharger.Core.GfciPolicy
use open_evcharger.Core.GfciPolicy.{GfciCtx, GfciAction, no_action, warn_emit, raise_fault}
use open_evcharger.Core.OverTemp
use open_evcharger.Core.OverTemp.{OverTempCtx}
use open_evcharger.Safety.State.{
  EvseState, ready, cooling_down, fault, is_boot, is_self_test, is_fault, is_charging, is_cooling,
  Env, Sup, diag_adc,
}
use open_evcharger.Safety.Session.{emit, post_fault_event}
use open_evcharger.Safety.Transition.{evse_transition, raise_and_post, trip}

abbrev pub weld_persist_ticks : ℕ
weld_persist_ticks = 10

abbrev pub stuck_open_persist_ticks : ℕ
stuck_open_persist_ticks = 10

abbrev pub cp_e_persist_ticks : ℕ
cp_e_persist_ticks = 3

abbrev pub pe_ok_raw_max : ℕ
pe_ok_raw_max = 400

abbrev pub pe_persist_ticks : ℕ
pe_persist_ticks = 10

abbrev pub adc_runtime_persist_ticks : ℕ
adc_runtime_persist_ticks = 5

abbrev pub cc_persist_ticks : ℕ
cc_persist_ticks = 10

abbrev pub st_adc_min : ℕ
st_adc_min = 100

abbrev pub st_adc_max : ℕ
st_adc_max = 3995

-- Ranks of the converter's scan.
abbrev pub rank_ac : ℕ
rank_ac = 0

abbrev pub rank_ntc1 : ℕ
rank_ntc1 = 1

abbrev pub rank_ct : ℕ
rank_ct = 2

abbrev pub rank_lct : ℕ
rank_lct = 3

abbrev pub rank_cp : ℕ
rank_cp = 4

abbrev pub rank_cc : ℕ
rank_cc = 5

abbrev pub rank_pe : ℕ
rank_pe = 6

-- `if (streak < limit) ++streak`
abbrev pub bump : ℕ → ℕ → ℕ
bump limit streak = if ltb streak limit then streak + 1 else streak

unfoldable pub check_safe_fail : Env → J1772State → Sup → Sup
check_safe_fail env js s =
    if env.safe_fail then trip env Fault.crash_loop_safe_fail js env.cp_mv s else s

-- Compiled in only with relay feedback.
unfoldable pub check_relay_weld : Env → J1772State → Sup → ℕ → Sup × ℕ
check_relay_weld env js s streak =
    let n = (if env.sense_closed && not s.relay_cmd then bump weld_persist_ticks streak else 0) in
    (if leb weld_persist_ticks n then trip env Fault.relay_weld js env.cp_mv s else s, n)

-- Compiled in only with relay feedback.
unfoldable pub check_relay_stuck_open : Env → J1772State → Sup → ℕ → Sup × ℕ
check_relay_stuck_open env js s streak =
    let n = bump stuck_open_persist_ticks streak in
    if not s.relay_cmd || env.sense_closed then (s, 0) else (
      if leb stuck_open_persist_ticks n then trip env Fault.relay_stuck_open js env.cp_mv s else s,
      n,
    )

-- The I/O of the action that the policy returned.
unfoldable pub carry_out : Env → J1772State → Sup → GfciAction → Sup
carry_out env js s no_action = s
carry_out env js s warn_emit = post_fault_event Fault.gfci js env.cp_mv s
carry_out env js s raise_fault =
    evse_transition env fault (raise_and_post Fault.gfci js env.cp_mv s)

-- The line is masked inside the handshake window.
unfoldable pub check_gfci : Env → J1772State → Sup → GfciCtx → Sup × GfciCtx
unfolding carry_out
check_gfci env js s ctx =
    let low = (if env.gfci_window then false else env.gfci_line) in
    let (ctx', act) = GfciPolicy.step ctx low env.gfci_fault_policy in
    (carry_out env js s act, ctx')

-- The states in which the converter-based detectors rest.
abbrev pub resting : EvseState → Bool
resting es = is_boot es || is_self_test es || is_fault es

-- The streak, and the static tick count of the diagnostic message that goes out every 250 ticks.
unfoldable pub check_pe_continuity : Env → J1772State → Sup → ℕ → ℕ → Sup × ℕ × ℕ
check_pe_continuity env js s streak log_tick =
    let raw = env.adc rank_pe in
    let due = leb 250 (log_tick + 1) in
    let t = (if due then emit (diag_adc raw js s.es) s else s) in
    let n = (if ltb pe_ok_raw_max raw then bump pe_persist_ticks streak else 0) in
    let t' =
      (if env.build.pe_detector && leb pe_persist_ticks n
        then trip env Fault.pe_continuity js env.cp_mv t
        else t) in
    if resting s.es then (s, 0, log_tick) else (t', n, if due then 0 else log_tick + 1)

-- A trace only: no fault is raised.
unfoldable pub check_cp_regression : Env → J1772State → J1772State → EvseState → Sup → Sup
check_cp_regression env prev_js js prev_es s =
    if same prev_js c && same js b && is_charging prev_es
    then post_fault_event Fault.cp_regression js env.cp_mv s
    else s

unfoldable pub decode_cc_amps : ℕ → ℕ
decode_cc_amps raw =
    if leb 3700 raw
    then 0
    else if leb 3060 raw
    then 13
    else if leb 2400 raw
    then 20
    else if leb 1300 raw
    then 32
    else if leb 600 raw
    then 63
    else 0

unfoldable pub cc_raw_in_band : ℕ → Bool
cc_raw_in_band raw =
    if leb 3700 raw
    then true
    else if leb 3060 raw
    then true
    else if leb 2400 raw
    then true
    else if leb 1300 raw
    then true
    else if leb 600 raw
    then true
    else false

-- Without the build flag the detector does nothing.
unfoldable pub check_cc_out_of_range : Env → J1772State → Sup → ℕ → Sup × ℕ
check_cc_out_of_range env js s streak =
    let n = (if cc_raw_in_band (env.adc rank_cc) then 0 else bump cc_persist_ticks streak) in
    if env.build.cc_detector
    then (if resting s.es then (s, 0) else (
      if leb cc_persist_ticks n then trip env Fault.cc_out_of_range js env.cp_mv s else s,
      n,
    ))
    else (s, streak)

-- A reading at a rail.
abbrev pub at_rail : ℕ → Bool
at_rail raw = ltb raw st_adc_min || ltb st_adc_max raw

unfoldable pub check_adc_runtime : Env → J1772State → Sup → ℕ → Sup × ℕ
check_adc_runtime env js s streak =
    let rail =
      at_rail (env.adc rank_ac) || at_rail (env.adc rank_ct) || at_rail (env.adc rank_lct) in
    let n = (if rail then bump adc_runtime_persist_ticks streak else 0) in
    if resting s.es then (s, 0) else (
      if leb adc_runtime_persist_ticks n then trip env Fault.adc_out_of_range js env.cp_mv s else s,
      n,
    )

unfoldable pub check_cp_e : Env → J1772State → Sup → ℕ → Sup × ℕ
check_cp_e env js s streak =
    let n = (if same js e then bump cp_e_persist_ticks streak else 0) in
    if is_fault s.es || ltb 0 s.replug_window_ticks
    then (s, 0)
    else (if leb cp_e_persist_ticks n then trip env Fault.cp_no_pilot js env.cp_mv s else s, n)

-- The supervisor's part of an over-temperature trip.
unfoldable pub on_trip : Env → Sup → Sup
on_trip env s =
    let t = raise_and_post Fault.over_temp invalid (pos 0) s in
    if is_fault t.es then t else evse_transition env cooling_down t

-- The supervisor's part of an over-temperature clear.
unfoldable pub on_clear : Env → Sup → Sup
on_clear env s =
    let t = record s { fs = (Fault.clear s.fs Fault.over_temp).0 } in
    if is_cooling t.es then evse_transition env ready t else t

unfoldable pub check_over_temp : Env → Sup → OverTempCtx → Sup × OverTempCtx
check_over_temp env s ctx =
    let (ctx', act) =
      OverTemp.step (record ctx { fault_active = Fault.is_active s.fs Fault.over_temp })
        (env.adc rank_ntc1) (env.adc rank_ac) env.build.ntc1_present env.build.gun_ntc_present in
    (if act.trip then on_trip env s else if act.clear then on_clear env s else s, ctx')
