-- ===== src/Safety/Tick.antt =====
-- One round of the loop of `safety_task_run` in src/tasks/safety_task.c, phase by phase.
pub mod Safe
use open_evcharger.Prelude.{
  ℕ, ◌+◌, ◌-◌, Bool, true, false, not, ◌&&◌, if◌then◌else◌, ltb, leb, ◌==◌,
}
use open_evcharger.Core.J1772
use open_evcharger.Core.J1772.{J1772State, J1772Ctx, same, invalid}
use open_evcharger.Core.GfciPolicy.{GfciCtx}
use open_evcharger.Core.OverTemp.{OverTempCtx}
use open_evcharger.Core.Rfid.{RfidCtx}
use open_evcharger.Safety.State.{EvseState, ready, is_paused, state_changed, Env, Sup}
use open_evcharger.Safety.Session.{emit}
use open_evcharger.Safety.Transition.{evse_transition, apply_relay_state, apply_cp_for_state}
use open_evcharger.Safety.Detectors.{
  check_safe_fail, check_relay_weld, check_relay_stuck_open, check_gfci, check_pe_continuity,
  check_adc_runtime, check_cc_out_of_range, check_cp_e, check_over_temp, check_cp_regression,
}
use open_evcharger.Safety.Metering.{
  WeldSettle, check_ac_absent, check_relay_weld_bl0939, check_relay_stuck_open_bl0939,
  check_hard_over_current, check_soft_over_current, integrate,
}
use open_evcharger.Safety.Inbox.{Desk, drain_inbox}
use open_evcharger.Safety.Swipe.{read_card, age_learning}
use open_evcharger.Safety.Progress.{update_evse_from_j1772}

abbrev pub j1772_debounce_n : ℕ
j1772_debounce_n = 3

abbrev pub bl0939_poll_ticks : ℕ
bl0939_poll_ticks = 20

-- The streaks of the detectors that run on every tick.
pub record Streaks : Type 0 where
  pub weld : ℕ
  pub stuck_open : ℕ
  pub cp_e : ℕ
  pub c : ℕ
  pub pe : ℕ
  pub pe_log_tick : ℕ
  pub adc_runtime : ℕ
  pub cc : ℕ

-- The streaks of the detectors that run on every poll of the metering chip.
pub record Polls : Type 0 where
  pub div : ℕ
  pub ac_absent : ℕ
  pub weld : ℕ
  pub settle : WeldSettle
  pub stuck_open : ℕ
  pub hoc : ℕ
  pub soc : ℕ

-- The variables of the task.
pub record Task : Type 0 where
  pub sup : Sup
  pub cp : J1772Ctx
  pub last_logged : J1772State
  pub prev_js : J1772State
  pub prev_es : EvseState
  pub gfci : GfciCtx
  pub ot : OverTempCtx
  pub rfid : RfidCtx
  pub streaks : Streaks
  pub polls : Polls

-- The replug window: on its last tick a paused supervisor goes to READY.
unfoldable pub service_replug : Env → Desk → Desk
service_replug env x =
    let left = x.sup.replug_window_ticks - 1 in
    let s = record x.sup { replug_window_ticks = left } in
    if ltb 0 x.sup.replug_window_ticks
    then (if left == 0
        then record {
          sup = if is_paused s.es then evse_transition env ready s else s;
          cp_e_streak = 0;
          cp = J1772.init;
        }
        else record x { sup = s })
    else x

-- The requests, then the replug window.
unfoldable pub desk_phase : Env → Desk → Desk
desk_phase env x = service_replug env (drain_inbox env x)

-- The message about a new pilot state.
unfoldable pub report_pilot : J1772State → J1772State → Sup → Sup
report_pilot js last_logged s =
    if not (same js last_logged) && not (same js invalid) then emit (state_changed js) s else s

-- The detectors that need relay feedback.
unfoldable pub feedback_phase : Env → J1772State → Sup → Streaks → Sup × Streaks
feedback_phase env js s k =
    let (s1, weld) = check_relay_weld env js s k.weld in
    let (s2, stuck_open) = check_relay_stuck_open env js s1 k.stuck_open in
    if env.build.relay_feedback
    then (s2, record k { weld = weld; stuck_open = stuck_open })
    else (s, k)

-- The detectors of every tick, in the order of the source.
unfoldable pub detect_phase :
    Env → J1772State → Sup → Streaks → GfciCtx → OverTempCtx → Sup × Streaks × GfciCtx × OverTempCtx
detect_phase env js s k gfci ot =
    let s1 = check_safe_fail env js s in
    let (s2, k2) = feedback_phase env js s1 k in
    let (s3, gfci') = check_gfci env js s2 gfci in
    let (s4, pe, log_tick) = check_pe_continuity env js s3 k2.pe k2.pe_log_tick in
    let (s5, adc) = check_adc_runtime env js s4 k2.adc_runtime in
    let (s6, cc) = check_cc_out_of_range env js s5 k2.cc in
    let (s7, cp_e) = check_cp_e env js s6 k2.cp_e in
    let (s8, ot') = check_over_temp env s7 ot in
    (
      s8,
      record k2 { pe = pe; pe_log_tick = log_tick; adc_runtime = adc; cc = cc; cp_e = cp_e },
      gfci',
      ot',
    )

-- The transitions that the pilot drives, then the contactor and the pilot output.
unfoldable pub apply_phase : Env → J1772State → J1772State → EvseState → Sup → ℕ → Sup × ℕ
apply_phase env prev_js js prev_es s c_streak =
    let (s1, n) = update_evse_from_j1772 env js s c_streak in
    let s2 = check_cp_regression env prev_js js prev_es s1 in
    (apply_cp_for_state env js (apply_relay_state js s2), n)

-- One poll of the metering chip.
unfoldable pub poll_phase : Env → J1772State → Sup → Polls → Sup × Polls
poll_phase env js s p =
    let (s1, ac) = check_ac_absent env js s p.ac_absent in
    let (s2, weld, settle) = check_relay_weld_bl0939 env js s1 p.weld p.settle in
    let (s3, stuck) = check_relay_stuck_open_bl0939 env js s2 p.stuck_open in
    let (s4, hoc) = check_hard_over_current env js s3 p.hoc in
    let (s5, soc) = check_soft_over_current env js s4 p.soc in
    (
      integrate env s5,
      record {
        div = 0;
        ac_absent = ac;
        weld = weld;
        settle = settle;
        stuck_open = stuck;
        hoc = hoc;
        soc = soc;
      },
    )

-- Every 20th tick polls.
unfoldable pub meter_phase : Env → J1772State → Sup → Polls → Sup × Polls
meter_phase env js s p =
    let polled = poll_phase env js s p in
    if leb bl0939_poll_ticks (p.div + 1) then polled else (s, record p { div = p.div + 1 })

-- The card reader, and the age of learn mode.
unfoldable pub card_phase : Env → Sup → RfidCtx → Sup × RfidCtx
card_phase env s ctx = let (t, ctx') = read_card env env.rx s ctx in (age_learning t, ctx')

-- The desk of a task.
abbrev pub desk_of : Task → Desk
desk_of x = record { sup = x.sup; cp_e_streak = x.streaks.cp_e; cp = x.cp }

-- The part of a tick after the requests.
unfoldable pub work : Env → Task → Task
work env x =
    let cp = J1772.step x.cp env.cp_mv j1772_debounce_n in
    let js = cp.committed in
    let told = not (same js x.last_logged) && not (same js invalid) in
    let s1 = report_pilot js x.last_logged x.sup in
    let (s2, k, gfci, ot) = detect_phase env js s1 x.streaks x.gfci x.ot in
    let (s3, c) = apply_phase env x.prev_js js x.prev_es s2 k.c in
    let (s4, polls) = meter_phase env js s3 x.polls in
    let (s5, rfid) = card_phase env s4 x.rfid in
    record {
      sup = s5;
      cp = cp;
      last_logged = if told then js else x.last_logged;
      prev_js = js;
      prev_es = s3.es;
      gfci = gfci;
      ot = ot;
      rfid = rfid;
      streaks = record k { c = c };
      polls = polls;
    }

-- The requests of a tick, put back into the task.
unfoldable pub requests : Env → Task → Task
requests env x =
    let d = desk_phase env (desk_of x) in
    record x { sup = d.sup; cp = d.cp; streaks = record x.streaks { cp_e = d.cp_e_streak } }

unfoldable pub tick : Env → Task → Task
tick env x = work env (requests env x)
