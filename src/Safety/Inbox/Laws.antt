-- ===== src/Safety/Inbox/Laws.antt =====
-- The inbox handlers of src/tasks/safety_task.c keep the supervisor's invariant.
use open_evcharger.Prelude.{
  ℕ, zero, suc, ◌≡◌, Bool, true, false, not, ◌&&◌, ◌||◌, List, [], ◌∷◌, arith, Bool-cases, inl, inr,
  if◌then◌else◌, ltb, ◌==◌,
}
use open_evcharger.Core.Fault
use open_evcharger.Core.Fault.{FaultState, Outcome, refused, unchanged, changed}
use open_evcharger.Core.Fault.Latched.{any_latched-clear_le, any_latched-clear_all_le}
use open_evcharger.Safety.State.{
  EvseState, ready, user_paused, is_fault, is_ready, is_charging, is_paused, is_cooling, state_f,
  Env, Sup, Request, clear_fault, user_pause, user_resume, rfid_learn_arm, publish_rfid_config,
  simulate_replug, run_gfci_cal_test, publish_gfci_policy,
}
use open_evcharger.Safety.Transition.{evse_transition}
use open_evcharger.Safety.Invariant.{Inv, transition-Inv}
use open_evcharger.Safety.Inbox.{
  Desk, leave_fault, report_clear, after_clear, process_clear_fault, process_replug,
  process_request, open_window, take_request, drain_requests, drain_inbox,
}

-- Fewer latched faults keep the invariant.
fewer-Inv :
    (s : Sup) (fs : FaultState)
    → (Fault.any_latched_active fs ≡ true → Fault.any_latched_active s.fs ≡ true)
    → Inv s
    → Inv (record s { fs = fs })
fewer-Inv s fs h v = ground (arith, v, h)

-- The record of the first fault does not count among the active faults.
first-Inv : (s : Sup) (id : ℕ) → Inv s → Inv (record s { fs = record s.fs { first_raised = id } })
first-Inv s id v = record {
  latch = v.latch;
  opened = v.opened;
  held = unfold Fault.any_latched_active in v.held;
  charging = v.charging;
}

held_ne_fault : (s : Sup) → Inv s → is_fault s.es ≡ false → Fault.any_latched_active s.fs ≡ false
held_ne_fault s v h = ground (arith, v)

leave_fault-Inv : (env : Env) (x : Desk) → Inv x.sup → Inv (leave_fault env x).sup
unfolding leave_fault
leave_fault-Inv env x v =
    elim (Bool-cases (is_fault x.sup.es && not (Fault.any_latched_active x.sup.fs))) [
      | inl h ↦ rw h (
          first-Inv (evse_transition env ready x.sup) 0
            (transition-Inv env ready x.sup v (ground arith)))
      | inr h ↦ rw h v
    ]

report_clear-Inv :
    (fid : ℕ) (cleared : Bool) (x : Desk) → Inv x.sup → Inv (report_clear fid cleared x).sup
unfolding report_clear
report_clear-Inv fid true x v = ground (arith, v)
report_clear-Inv fid false x v = v

after_clear-Inv :
    (env : Env) (fid : ℕ) (o : Outcome) (x : Desk) → Inv x.sup → Inv (after_clear env fid o x).sup
unfolding after_clear
after_clear-Inv env fid refused x v = v
after_clear-Inv env fid unchanged x v =
    leave_fault-Inv env (report_clear fid false x) (report_clear-Inv fid false x v)
after_clear-Inv env fid changed x v =
    leave_fault-Inv env (report_clear fid true x) (report_clear-Inv fid true x v)

if_desk : (b : Bool) (x y : Desk) → Inv x.sup → Inv y.sup → Inv (if b then x else y).sup
if_desk true x y v w = v
if_desk false x y v w = w

process_clear_fault-Inv :
    (env : Env) (fid : ℕ) (x : Desk) → Inv x.sup → Inv (process_clear_fault env fid x).sup
unfolding process_clear_fault
process_clear_fault-Inv env fid x v =
    let all = Fault.clear_all_clearable x.sup.fs in
    let one = Fault.clear x.sup.fs fid in
    let x_all : Desk = record x { sup = record x.sup { fs = all.0 } } in
    let x_one : Desk = record x { sup = record x.sup { fs = one.0 } } in
    if_desk (fid == 0) _ _
      (leave_fault-Inv env (report_clear fid (ltb 0 all.1) x_all) (
        report_clear-Inv fid (ltb 0 all.1) x_all
          (fewer-Inv x.sup all.0 (any_latched-clear_all_le x.sup.fs) v)))
      (if_desk (ltb fid 21) _ x
        (after_clear-Inv env fid one.1 x_one
          (fewer-Inv x.sup one.0 (any_latched-clear_le x.sup.fs fid) v))
        v)

not_fault :
    (es : EvseState)
    → (is_ready es || is_charging es || is_paused es || is_cooling es) ≡ true
    → is_fault es ≡ false
not_fault es h = ground arith

window-Inv : (s : Sup) → Inv s → Inv (record s { replug_window_ticks = 150; cp_out = state_f })
window-Inv s v = ground (arith, v)

open_window-Inv : (env : Env) (x : Desk) → Inv x.sup → Inv (open_window env x).sup
unfolding open_window
open_window-Inv env x v =
    let es = x.sup.es in
    elim (Bool-cases (is_ready es || is_charging es || is_paused es || is_cooling es)) [
      | inl h ↦ rw h (
          window-Inv (evse_transition env user_paused x.sup) (
            transition-Inv env user_paused x.sup v
              (ground (arith, held_ne_fault x.sup v (not_fault es h)))))
      | inr h ↦ rw h v
    ]

process_replug-Inv : (env : Env) (x : Desk) → Inv x.sup → Inv (process_replug env x).sup
unfolding process_replug
process_replug-Inv env x v = if_desk _ x (open_window env x) v (open_window-Inv env x v)

-- Every request keeps the invariant.
pub process_request-Inv :
    (env : Env) (r : Request) (x : Desk) → Inv x.sup → Inv (process_request env r x).sup
unfolding process_request
process_request-Inv env (clear_fault fid) x v = process_clear_fault-Inv env fid x v
process_request-Inv env (user_pause reason) x v =
    ground (arith, v, held_ne_fault x.sup v, transition-Inv env user_paused x.sup v)
process_request-Inv env user_resume x v =
    ground (arith, v, held_ne_fault x.sup v, transition-Inv env ready x.sup v)
process_request-Inv env rfid_learn_arm x v = ground (arith, v)
process_request-Inv env publish_rfid_config x v = ground (arith, v)
process_request-Inv env publish_gfci_policy x v = ground (arith, v)
process_request-Inv env simulate_replug x v = process_replug-Inv env x v
process_request-Inv env run_gfci_cal_test x v = v

take_request-Inv :
    (env : Env) (rs : List Request) (x : Desk) → Inv x.sup → Inv (take_request env rs x).sup
unfolding take_request
take_request-Inv env [] x v = v
take_request-Inv env (r ∷ rs) x v =
    process_request-Inv env r (record x { sup = record x.sup { inbox = rs } }) (ground (arith, v))

drain_requests-Inv : (n : ℕ) (env : Env) (x : Desk) → Inv x.sup → Inv (drain_requests n env x).sup
unfolding drain_requests
drain_requests-Inv zero env x v = v
drain_requests-Inv (suc n) env x v =
    drain_requests-Inv n env (take_request env x.sup.inbox x) (take_request-Inv env x.sup.inbox x v)

-- Whatever is in the inbox, draining it keeps the invariant.
pub drain_inbox-Inv : (env : Env) (x : Desk) → Inv x.sup → Inv (drain_inbox env x).sup
unfolding drain_inbox
drain_inbox-Inv env x v = drain_requests-Inv 4 env x v
