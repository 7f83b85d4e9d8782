-- ===== src/Safety/Transition.antt =====
-- The outputs of src/tasks/safety_task.c: `evse_transition`, `apply_relay_state`,
-- `apply_cp_for_state`, the relay driver of src/hal/gd32f205/relay.c, and the raising of faults.
pub mod Laws
use open_evcharger.Prelude.{ℕ, Bool, true, false, not, ◌&&◌, ◌||◌, if◌then◌else◌, ltb}
use open_evcharger.Prelude.Int.{ℤ}
use open_evcharger.Core.Fault
use open_evcharger.Core.J1772.{J1772State, same, b, c, d}
use open_evcharger.Safety.State.{
  EvseState, fault, is_fault, is_charging, is_paused, is_cooling, same_evse, CpOut, state_f,
  idle_high, advertise, normal, faulted, Env, Sup,
}
use open_evcharger.Safety.Session.{
  session_start, session_end, post_fault_event, effective_advertised_amps,
}

unfoldable pub relay_main_open : Sup → Sup
relay_main_open s = record s { relay_cmd = false }

unfoldable pub relay_main_close : Sup → Sup
relay_main_close s = record s { relay_cmd = true }

unfoldable pub relay_force_open_latch : Sup → Sup
relay_force_open_latch s = record s { force_open = true }

unfoldable pub relay_force_open_release : Sup → Sup
relay_force_open_release s = record s { force_open = false }

-- The session's part of a transition to another state.
pub lifecycle : Env → EvseState → Sup → Sup
lifecycle env next s =
    if is_charging next && not (is_charging s.es)
    then session_start env s
    else if is_charging s.es && not (is_charging next)
    then session_end env (if is_fault next then faulted else normal) s
    else s

-- The outputs of a transition, once the state is the next one.
pub drive : EvseState → Sup → Sup
unfolding relay_main_open relay_force_open_latch relay_force_open_release
drive next s =
    if is_fault next
    then relay_force_open_latch (relay_main_open (record s { cp_out = state_f }))
    else if s.force_open
    then relay_force_open_release s
    else s

unfoldable pub evse_transition : Env → EvseState → Sup → Sup
evse_transition env next s =
    let t = lifecycle env next s in
    if same_evse s.es next then s else drive next (record t { es = next })

unfoldable pub apply_relay_state : J1772State → Sup → Sup
unfolding relay_main_open relay_main_close
apply_relay_state js s =
    let want_closed = is_charging s.es && same js c && not (Fault.any_latched_active s.fs) in
    if want_closed && not s.relay_cmd
    then relay_main_close s
    else if not want_closed && s.relay_cmd
    then relay_main_open s
    else s

-- Which drive the control pilot gets.
unfoldable pub cp_for : Env → Sup → J1772State → CpOut
cp_for env s js =
    if ltb 0 s.replug_window_ticks
    then state_f
    else if is_fault s.es
    then state_f
    else if is_cooling s.es
    then idle_high
    else if is_paused s.es
    then idle_high
    else if same js b || same js c || same js d
    then advertise (effective_advertised_amps env s.soc_derate_amps)
    else idle_high

unfoldable pub apply_cp_for_state : Env → J1772State → Sup → Sup
unfolding cp_for
apply_cp_for_state env js s = record s { cp_out = cp_for env s js }

-- `if (fault_raise(fs, id) == 1) post_fault_event(...)`
unfoldable pub raise_and_post : ℕ → J1772State → ℤ → Sup → Sup
raise_and_post id js cp_mv s =
    let (fs, outcome) = Fault.raise s.fs id in
    let t = record s { fs = fs } in
    elim outcome [ Fault.changed ↦ post_fault_event id js cp_mv t | _ ↦ t ]

-- The shared end of the detectors of latched faults: nothing if the fault is active already,
-- otherwise the fault is raised and the supervisor goes to `EVSE_FAULT`.
unfoldable pub trip : Env → ℕ → J1772State → ℤ → Sup → Sup
trip env id js cp_mv s =
    if Fault.is_active s.fs id then s else evse_transition env fault (raise_and_post id js cp_mv s)
