-- ===== src/Safety/Inbox.antt =====
-- The control inbox of src/tasks/safety_task.c: `post_safety_req`, `process_request` and
-- `drain_inbox`.
pub mod Laws
use open_evcharger.Prelude.{
  ℕ, zero, suc, ◌+◌, Bool, true, false, not, ◌&&◌, ◌||◌, List, [], ◌∷◌, ◌++◌, if◌then◌else◌, ltb,
  ◌==◌, length,
}
use open_evcharger.Core.Fault
use open_evcharger.Core.Fault.{Outcome, refused, unchanged, changed}
use open_evcharger.Core.J1772
use open_evcharger.Core.J1772.{J1772Ctx, same, b, c, d}
use open_evcharger.Safety.State.{
  EvseState, ready, user_paused, is_fault, is_ready, is_charging, is_paused, is_cooling, state_f,
  Request, clear_fault, user_pause, user_resume, rfid_learn_arm, publish_rfid_config,
  simulate_replug, run_gfci_cal_test, publish_gfci_policy, fault_cleared, rfid_config, gfci_policy,
  Env, Sup,
}
use open_evcharger.Safety.Session.{emit}
use open_evcharger.Safety.Transition.{evse_transition}

abbrev pub inbox_depth : ℕ
inbox_depth = 4

abbrev pub replug_window_ticks : ℕ
replug_window_ticks = 150

abbrev pub rfid_learn_ticks : ℕ
rfid_learn_ticks = 1500

-- `post_safety_req`: a full queue drops the request, and the result says whether it was taken.
unfoldable pub post_safety_req : Request → Sup → Sup × Bool
post_safety_req r s =
    if ltb (length s.inbox) inbox_depth
    then (record s { inbox = s.inbox ++ (r ∷ []) }, true)
    else (s, false)

unfoldable pub send_rfid_config : Env → Sup → Sup
unfolding emit
send_rfid_config env s = emit (rfid_config env.require_rfid_auth s.session_authorized) s

unfoldable pub send_gfci_policy : Env → Sup → Sup
unfolding emit
send_gfci_policy env s = emit (gfci_policy env.gfci_fault_policy) s

-- What the inbox handlers write: the supervisor, the streak of `check_cp_e` and the classifier.
pub record Desk : Type 0 where
  pub sup : Sup
  pub cp_e_streak : ℕ
  pub cp : J1772Ctx

-- Out of `EVSE_FAULT`, once no latched fault is left.
unfoldable pub leave_fault : Env → Desk → Desk
leave_fault env x =
    let t = evse_transition env ready x.sup in
    if is_fault x.sup.es && not (Fault.any_latched_active x.sup.fs)
    then record {
      sup = record t { fs = record t.fs { first_raised = Fault.none_id } };
      cp_e_streak = 0;
      cp = J1772.init;
    }
    else x

-- The end of the CLEAR_FAULT handler.
unfoldable pub report_clear : ℕ → Bool → Desk → Desk
unfolding emit
report_clear fid cleared x =
    if cleared
    then record x {
      sup = emit (fault_cleared fid) x.sup;
      cp_e_streak = if fid == 0 || fid == Fault.cp_no_pilot then 0 else x.cp_e_streak;
    }
    else x

-- The outcome of `fault_clear`: a refusal ends the handler.
unfoldable pub after_clear : Env → ℕ → Outcome → Desk → Desk
unfolding leave_fault report_clear
after_clear env fid refused x = x
after_clear env fid unchanged x = leave_fault env (report_clear fid false x)
after_clear env fid changed x = leave_fault env (report_clear fid true x)

unfoldable pub process_clear_fault : Env → ℕ → Desk → Desk
unfolding after_clear leave_fault report_clear
process_clear_fault env fid x =
    let (fs_all, n) = Fault.clear_all_clearable x.sup.fs in
    let (fs_one, outcome) = Fault.clear x.sup.fs fid in
    if fid == 0
    then leave_fault env
        (report_clear fid (ltb 0 n) (record x { sup = record x.sup { fs = fs_all } }))
    else if ltb fid Fault.count
    then after_clear env fid outcome (record x { sup = record x.sup { fs = fs_one } })
    else x

-- The window of a simulated replug: the pilot goes to state F at once.
unfoldable pub open_window : Env → Desk → Desk
open_window env x =
    let es = x.sup.es in
    let t = evse_transition env user_paused x.sup in
    if is_ready es || is_charging es || is_paused es || is_cooling es
    then record x { sup = record t { replug_window_ticks = replug_window_ticks; cp_out = state_f } }
    else x

unfoldable pub process_replug : Env → Desk → Desk
process_replug env x =
    let js = x.cp.committed in
    if not (same js b || same js c || same js d) then x else open_window env x

-- The self-test of the ground-fault module reports to the log only.
unfoldable pub process_request : Env → Request → Desk → Desk
unfolding process_clear_fault process_replug send_rfid_config send_gfci_policy
process_request env (clear_fault fid) x = process_clear_fault env fid x
process_request env (user_pause reason) x =
    if is_ready x.sup.es || is_charging x.sup.es
    then record x { sup = evse_transition env user_paused x.sup }
    else x
process_request env user_resume x =
    if is_paused x.sup.es then record x { sup = evse_transition env ready x.sup } else x
process_request env rfid_learn_arm x = record x {
  sup = record x.sup { rfid_learn_ticks = rfid_learn_ticks };
}
process_request env publish_rfid_config x = record x { sup = send_rfid_config env x.sup }
process_request env publish_gfci_policy x = record x { sup = send_gfci_policy env x.sup }
process_request env simulate_replug x = process_replug env x
process_request env run_gfci_cal_test x = x

-- The request taken off the queue, and the rest of the queue.
unfoldable pub take_request : Env → List Request → Desk → Desk
take_request env [] x = x
take_request env (r ∷ rs) x = process_request env r (record x { sup = record x.sup { inbox = rs } })

-- At most `n` requests of the queue.
unfoldable pub drain_requests : ℕ → Env → Desk → Desk
unfolding take_request
drain_requests zero env x = x
drain_requests (suc n) env x = drain_requests n env (take_request env x.sup.inbox x)

unfoldable pub drain_inbox : Env → Desk → Desk
unfolding drain_requests
drain_inbox env x = drain_requests 4 env x
