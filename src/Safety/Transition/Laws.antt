-- ===== src/Safety/Transition/Laws.antt =====
-- What `evse_transition` of src/tasks/safety_task.c changes and what it leaves alone.
use open_evcharger.Prelude.{◌≡◌, true, false, not, ◌&&◌, arith, if◌then◌else◌}
use open_evcharger.Safety.State.{EvseState, is_fault, is_charging, same_evse, Env, Sup}
use open_evcharger.Safety.Session.{session_start, session_end}
use open_evcharger.Safety.Transition.{lifecycle, drive, evse_transition}

pub same_evse_eq : (s t : EvseState) → same_evse s t ≡ true → s ≡ t
same_evse_eq s t h = ground arith

-- The variables that neither a transition nor the raising of a fault touches.
pub record Frame (s t : Sup) : Type 0 where
  pub learn : t.rfid_learn_ticks ≡ s.rfid_learn_ticks
  pub replug : t.replug_window_ticks ≡ s.replug_window_ticks
  pub authorized : t.session_authorized ≡ s.session_authorized
  pub inbox : t.inbox ≡ s.inbox

lifecycle_parts :
    (env : Env) (next : EvseState) (s : Sup)
    → let t = lifecycle env next s in
      (t.es ≡ s.es)
      × (t.fs ≡ s.fs)
      × (t.relay_cmd ≡ s.relay_cmd)
      × (t.force_open ≡ s.force_open)
      × (t.session.active ≡ (
          if is_charging next && not (is_charging s.es)
          then true
          else if is_charging s.es && not (is_charging next)
          then false
          else s.session.active))
unfolding lifecycle session_start session_end
lifecycle_parts env next s = ground arith

lifecycle-Frame : (env : Env) (next : EvseState) (s : Sup) → Frame s (lifecycle env next s)
unfolding lifecycle session_start session_end
lifecycle-Frame env next s = ground arith

drive_parts :
    (next : EvseState) (s : Sup)
    → let t = drive next s in
      (t.es ≡ s.es)
      × (t.fs ≡ s.fs)
      × (t.relay_cmd ≡ (if is_fault next then false else s.relay_cmd))
      × (t.force_open ≡ is_fault next)
      × (t.session ≡ s.session)
unfolding drive
drive_parts next s = ground arith

drive-Frame : (next : EvseState) (s : Sup) → Frame s (drive next s)
unfolding drive
drive-Frame next s = ground arith

pub es-transition :
    (env : Env) (next : EvseState) (s : Sup) → (evse_transition env next s).es ≡ next
unfolding evse_transition
es-transition env next s =
    let t = lifecycle env next s in
    ground (arith, drive_parts next (record t { es = next }), same_evse_eq s.es next)

pub fs-transition :
    (env : Env) (next : EvseState) (s : Sup) → (evse_transition env next s).fs ≡ s.fs
unfolding evse_transition
fs-transition env next s =
    let t = lifecycle env next s in
    ground (arith, drive_parts next (record t { es = next }), lifecycle_parts env next s)

pub transition-Frame :
    (env : Env) (next : EvseState) (s : Sup) → Frame s (evse_transition env next s)
unfolding evse_transition
transition-Frame env next s =
    let t = lifecycle env next s in
    ground (arith, drive-Frame next (record t { es = next }), lifecycle-Frame env next s)

-- The contactor and the latch after a transition, from a state with the latch armed exactly in
-- `EVSE_FAULT` and the contactor open there: the latch is armed exactly if the next state is
-- `EVSE_FAULT`, and the contactor is opened if it is and left alone otherwise.
pub outputs-transition :
    (env : Env) (next : EvseState) (s : Sup)
    → s.force_open ≡ is_fault s.es
    → (s.relay_cmd && is_fault s.es) ≡ false
    → let t = evse_transition env next s in
      (t.force_open ≡ is_fault next)
      × (t.relay_cmd ≡ (if is_fault next then false else s.relay_cmd))
unfolding evse_transition
outputs-transition env next s h k =
    let t = lifecycle env next s in
    ground (
      arith,
      drive_parts next (record t { es = next }),
      lifecycle_parts env next s,
      same_evse_eq s.es next,
    )

pub session-transition :
    (env : Env) (next : EvseState) (s : Sup)
    → s.session.active ≡ is_charging s.es
    → (evse_transition env next s).session.active ≡ is_charging next
unfolding evse_transition
session-transition env next s h =
    let t = lifecycle env next s in
    ground (
      arith,
      drive_parts next (record t { es = next }),
      lifecycle_parts env next s,
      same_evse_eq s.es next,
    )
