-- ===== src/Safety/Progress.antt =====
-- `update_evse_from_j1772` of src/tasks/safety_task.c: the transitions that the pilot state drives.
pub mod Laws
use open_evcharger.Prelude.{ℕ, ◌+◌, Bool, true, false, not, ◌&&◌, ◌||◌, if◌then◌else◌, ltb, leb}
use open_evcharger.Core.J1772.{J1772State, same, a, c}
use open_evcharger.Safety.State.{
  EvseState, ready, charging, is_fault, is_boot, is_self_test, is_cooling, is_paused, is_ready,
  is_charging, Env, Sup,
}
use open_evcharger.Safety.Transition.{evse_transition}
use open_evcharger.Safety.Detectors.{bump}
use open_evcharger.Safety.Inbox.{send_rfid_config}

abbrev pub evse_c_dwell_ticks : ℕ
evse_c_dwell_ticks = 50

-- The states that this path never leaves.
abbrev pub sticky : EvseState → Bool
sticky es = is_fault es || is_boot es || is_self_test es || is_cooling es

-- Pulling the plug ends the authorization.
unfoldable pub drop_authorization : Env → J1772State → Sup → Sup
drop_authorization env js s =
    if same js a && s.session_authorized
    then send_rfid_config env (record s { session_authorized = false })
    else s

-- The dwell at state C.
abbrev pub dwell : J1772State → ℕ → ℕ
dwell js n = if same js c then bump evse_c_dwell_ticks n else 0

-- The authorization gate.
abbrev pub authorized : Env → Sup → Bool
authorized env s = not env.require_rfid_auth || s.session_authorized

-- The part for READY and CHARGING, with the dwell counted.
unfoldable pub advance : Env → J1772State → Sup → ℕ → Sup
advance env js s n =
    if is_ready s.es && leb evse_c_dwell_ticks n && authorized env s
    then evse_transition env charging s
    else if is_charging s.es && not (same js c)
    then evse_transition env ready s
    else s

unfoldable pub update_evse_from_j1772 : Env → J1772State → Sup → ℕ → Sup × ℕ
update_evse_from_j1772 env js s c_streak =
    let t = drop_authorization env js s in
    let n = dwell js c_streak in
    if sticky s.es
    then (s, 0)
    else if is_paused s.es
    then (if same js a then evse_transition env ready t else t, 0)
    else (advance env js t n, n)
