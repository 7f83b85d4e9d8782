-- ===== src/Safety/Tick/Safe.antt =====
-- A tick of src/tasks/safety_task.c keeps the invariant and the rule on the closed contactor.
use open_evcharger.Prelude.{ℕ, ◌-◌, arith, Bool-cases, inl, inr, if◌then◌else◌}
use open_evcharger.Core.J1772
use open_evcharger.Core.J1772.{J1772State, same, c}
use open_evcharger.Core.GfciPolicy.{GfciCtx}
use open_evcharger.Core.OverTemp.{OverTempCtx}
use open_evcharger.Core.Rfid.{RfidCtx}
use open_evcharger.Safety.State.{EvseState, ready, is_paused, state_changed, Env, Sup}
use open_evcharger.Safety.Transition.{evse_transition, apply_relay_state, apply_cp_for_state}
use open_evcharger.Safety.Invariant.{Inv, RelayOk, transition-Inv}
use open_evcharger.Safety.Detectors.{check_safe_fail, check_relay_weld}
use open_evcharger.Safety.Detectors.Laws.{
  emit-Inv, if_holds, check_safe_fail-Inv, check_relay_weld-Inv, check_relay_stuck_open-Inv,
  check_gfci-Inv, check_pe_continuity-Inv, check_adc_runtime-Inv, check_cc_out_of_range-Inv,
  check_cp_e-Inv, check_over_temp-Inv, check_cp_regression-Inv,
}
use open_evcharger.Safety.Metering.Laws.{
  Good, check_ac_absent-Good, check_relay_weld_bl0939-Good, check_relay_stuck_open_bl0939-Good,
  check_hard_over_current-Good, check_soft_over_current-Good, integrate-Good,
}
use open_evcharger.Safety.Inbox.{Desk, drain_inbox}
use open_evcharger.Safety.Inbox.Laws.{drain_inbox-Inv}
use open_evcharger.Safety.Swipe.{age_learning}
use open_evcharger.Safety.Swipe.Laws.{read_card-Same, Same-Good}
use open_evcharger.Safety.Progress.Laws.{update-Inv}
use open_evcharger.Safety.Tick.{
  Streaks, Polls, Task, service_replug, desk_phase, report_pilot, feedback_phase, detect_phase,
  apply_phase, poll_phase, meter_phase, card_phase, desk_of, work, requests, tick,
}

window_age-Inv : (s : Sup) (n : ℕ) → Inv s → Inv (record s { replug_window_ticks = n })
window_age-Inv s n v = ground (arith, v)

window_end-Inv :
    (env : Env) (s : Sup) → Inv s → Inv (if is_paused s.es then evse_transition env ready s else s)
window_end-Inv env s v = elim (Bool-cases (is_paused s.es)) [
  | inl h ↦ rw h (transition-Inv env ready s v (ground (arith, v)))
  | inr h ↦ rw h v
]

service_replug-Inv : (env : Env) (x : Desk) → Inv x.sup → Inv (service_replug env x).sup
unfolding service_replug
service_replug-Inv env x v =
    let s = record x.sup { replug_window_ticks = x.sup.replug_window_ticks - 1 } in
    let w = window_age-Inv x.sup (x.sup.replug_window_ticks - 1) v in
    ground (arith, v, w, window_end-Inv env s w)

pub desk_phase-Inv : (env : Env) (x : Desk) → Inv x.sup → Inv (desk_phase env x).sup
unfolding desk_phase
desk_phase-Inv env x v = service_replug-Inv env (drain_inbox env x) (drain_inbox-Inv env x v)

report_pilot-Inv : (js last : J1772State) (s : Sup) → Inv s → Inv (report_pilot js last s)
unfolding report_pilot
report_pilot-Inv js last s v = if_holds Inv _ _ s (emit-Inv (state_changed js) s v) v

feedback_phase-Inv :
    (env : Env) (js : J1772State) (s : Sup) (k : Streaks)
    → Inv s
    → Inv (feedback_phase env js s k).0
unfolding feedback_phase
feedback_phase-Inv env js s k v =
    let w = check_relay_weld-Inv env js s v k.weld in
    let s1 = (check_relay_weld env js s k.weld).0 in
    ground (arith, v, check_relay_stuck_open-Inv env js s1 w k.stuck_open)

detect_phase-Inv :
    (env : Env) (js : J1772State) (s : Sup) (k : Streaks) (gfci : GfciCtx) (ot : OverTempCtx)
    → Inv s
    → Inv (detect_phase env js s k gfci ot).0
unfolding detect_phase
detect_phase-Inv env js s k gfci ot v =
    let k2 = (feedback_phase env js (check_safe_fail env js s) k).1 in
    let v2 = feedback_phase-Inv env js _ k (check_safe_fail-Inv env js s v) in
    let v3 = check_gfci-Inv env js _ v2 gfci in
    let v4 = check_pe_continuity-Inv env js _ v3 k2.pe k2.pe_log_tick in
    let v5 = check_adc_runtime-Inv env js _ v4 k2.adc_runtime in
    let v6 = check_cc_out_of_range-Inv env js _ v5 k2.cc in
    let v7 = check_cp_e-Inv env js _ v6 k2.cp_e in check_over_temp-Inv env _ v7 ot

-- Deciding on the contactor establishes the rule on it.
apply_relay-Good : (js : J1772State) (s : Sup) → Inv s → Good js (apply_relay_state js s)
unfolding apply_relay_state RelayOk
apply_relay-Good js s v = record { inv = ground (arith, v); relay = ground (arith, v) }

apply_cp-Good :
    (env : Env) (js : J1772State) (s : Sup) → Good js s → Good js (apply_cp_for_state env js s)
unfolding apply_cp_for_state RelayOk
apply_cp-Good env js s g = record { inv = ground (arith, g.inv); relay = g.relay }

apply_phase-Good :
    (env : Env) (prev_js js : J1772State) (prev_es : EvseState) (s : Sup) (n : ℕ)
    → Inv s
    → Good js (apply_phase env prev_js js prev_es s n).0
unfolding apply_phase
apply_phase-Good env prev_js js prev_es s n v = apply_cp-Good env js _ (
    apply_relay-Good js _
      (check_cp_regression-Inv env js _ (update-Inv env js s n v) prev_js prev_es))

poll_phase-Good :
    (env : Env) (js : J1772State) (s : Sup) (p : Polls)
    → Good js s
    → Good js (poll_phase env js s p).0
unfolding poll_phase
poll_phase-Good env js s p g =
    let g1 = check_ac_absent-Good env js s g p.ac_absent in
    let g2 = check_relay_weld_bl0939-Good env js _ g1 p.weld p.settle in
    let g3 = check_relay_stuck_open_bl0939-Good env js _ g2 p.stuck_open in
    let g4 = check_hard_over_current-Good env js _ g3 p.hoc in
    integrate-Good env js _ (check_soft_over_current-Good env js _ g4 p.soc)

meter_phase-Good :
    (env : Env) (js : J1772State) (s : Sup) (p : Polls)
    → Good js s
    → Good js (meter_phase env js s p).0
unfolding meter_phase
meter_phase-Good env js s p g = ground (arith, g, poll_phase-Good env js s p g)

age-Good : (js : J1772State) (s : Sup) → Good js s → Good js (age_learning s)
unfolding age_learning RelayOk
age-Good js s g = record { inv = ground (arith, g.inv); relay = g.relay }

card_phase-Good :
    (env : Env) (js : J1772State) (s : Sup) (ctx : RfidCtx)
    → Good js s
    → Good js (card_phase env s ctx).0
unfolding card_phase
card_phase-Good env js s ctx g = age-Good js _ (Same-Good js (read_card-Same env env.rx s ctx) g)

work-Good : (env : Env) (x : Task) → Inv x.sup → Good (work env x).cp.committed (work env x).sup
unfolding work
work-Good env x v =
    let js = (J1772.step x.cp env.cp_mv 3).committed in
    let s1 = report_pilot js x.last_logged x.sup in
    let d = detect_phase env js s1 x.streaks x.gfci x.ot in
    let v2 =
      detect_phase-Inv env js s1 x.streaks x.gfci x.ot
        (report_pilot-Inv js x.last_logged x.sup v) in
    let g3 = apply_phase-Good env x.prev_js js x.prev_es d.0 d.1.c v2 in
    card_phase-Good env js _ x.rfid (meter_phase-Good env js _ x.polls g3)

-- Whatever a tick reads and whatever waits in the inbox, the tick keeps the invariant, and after it
-- the contactor is commanded closed only as the rule allows.
pub tick-Good : (env : Env) (x : Task) → Inv x.sup → Good (tick env x).cp.committed (tick env x).sup
unfolding tick requests
tick-Good env x v = work-Good env (requests env x) (desk_phase-Inv env (desk_of x) v)
