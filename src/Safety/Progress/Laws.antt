-- ===== src/Safety/Progress/Laws.antt =====
-- What the pilot-driven transitions of src/tasks/safety_task.c may do.
use open_evcharger.Prelude.{
  ℕ, ◌≡◌, ◌≤◌, true, false, not, ◌&&◌, ◌||◌, leb, arith, Bool-cases, ◌⊎◌, inl, inr, if◌then◌else◌,
}
use open_evcharger.Core.Fault
use open_evcharger.Core.J1772.{J1772State, same, a, c}
use open_evcharger.Safety.State.{ready, charging, is_fault, is_ready, is_charging, Env, Sup}
use open_evcharger.Safety.Transition.Laws.{es-transition}
use open_evcharger.Safety.Invariant.{Inv, transition-Inv}
use open_evcharger.Safety.Inbox.{send_rfid_config}
use open_evcharger.Safety.Progress.{
  sticky, drop_authorization, dwell, authorized, advance, update_evse_from_j1772,
}

drop_parts :
    (env : Env) (js : J1772State) (s : Sup)
    → let t = drop_authorization env js s in
      (t.es ≡ s.es) × (t.session_authorized ≡ (s.session_authorized && not (same js a)))
unfolding drop_authorization send_rfid_config
drop_parts env js s = ground arith

drop-Inv : (env : Env) (js : J1772State) (s : Sup) → Inv s → Inv (drop_authorization env js s)
unfolding drop_authorization send_rfid_config
drop-Inv env js s v = ground (arith, v)

calm : (s : Sup) → Inv s → is_fault s.es ≡ false → Fault.any_latched_active s.fs ≡ false
calm s v h = ground (arith, v)

advance-Inv :
    (env : Env) (js : J1772State) (s : Sup) (n : ℕ)
    → is_fault s.es ≡ false
    → Inv s
    → Inv (advance env js s n)
unfolding advance
advance-Inv env js s n h v = ground (
  arith,
  v,
  transition-Inv env charging s v (ground (arith, calm s v h)),
  transition-Inv env ready s v (ground (arith, calm s v h)),
)

pub update-Inv :
    (env : Env) (js : J1772State) (s : Sup) (n : ℕ)
    → Inv s
    → Inv (update_evse_from_j1772 env js s n).0
unfolding update_evse_from_j1772
update-Inv env js s n v = elim (Bool-cases (sticky s.es)) [
  | inl h ↦ rw h v
  | inr h ↦
      let t = drop_authorization env js s in
      let w = drop-Inv env js s v in
      let nf : is_fault t.es ≡ false = ground (arith, drop_parts env js s) in
      rw h (
        ground (
          arith,
          w,
          transition-Inv env ready t w (ground (arith, calm t w nf)),
          advance-Inv env js t (dwell js n) nf w,
        ))
]

advance_parts :
    (env : Env) (js : J1772State) (s : Sup) (n : ℕ)
    → (advance env js s n).es ≡ (
        if is_ready s.es && leb 50 n && authorized env s
        then charging
        else if is_charging s.es && not (same js c)
        then ready
        else s.es)
unfolding advance
advance_parts env js s n = ground (arith, es-transition env charging s, es-transition env ready s)

-- The supervisor charges after this step only if the pilot is at C, and it was charging before, or it
-- was READY, the dwell counter had reached 49 of its 50 ticks before this one, and the session is
-- authorized where authorization is required.
pub update_charging :
    (env : Env) (js : J1772State) (s : Sup) (n : ℕ)
    → (update_evse_from_j1772 env js s n).0.es ≡ charging
    → (same js c ≡ true)
      × ((s.es ≡ charging)
          ⊎ ((s.es ≡ ready)
              × (49 ≤ n)
              × ((not env.require_rfid_auth || s.session_authorized) ≡ true)))
unfolding update_evse_from_j1772
update_charging env js s n h =
    let t = drop_authorization env js s in
    ground
      (arith, drop_parts env js s, advance_parts env js t (dwell js n), es-transition env ready t)
