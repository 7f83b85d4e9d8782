-- ===== src/Safety/Invariant.antt =====
-- What holds of the supervisor of src/tasks/safety_task.c between any two of its steps.
use open_evcharger.Prelude.{
  ℕ, ◌≡◌, inl, inr, true, false, not, ◌&&◌, arith, Bool-cases, sym, ap, ◌∙◌,
}
use open_evcharger.Prelude.Int.{ℤ}
use open_evcharger.Core.Fault
use open_evcharger.Core.Fault.{FaultState}
use open_evcharger.Core.Fault.Latched.{any_latched-raise_other, latched_range}
use open_evcharger.Core.Fault.Laws.{any_latched_active_of, is_active-raise_self}
use open_evcharger.Core.J1772.{J1772State, same, c}
use open_evcharger.Safety.State.{EvseState, fault, is_fault, is_charging, Env, Sup}
use open_evcharger.Safety.Session.{post_fault_event}
use open_evcharger.Safety.Transition.{evse_transition, raise_and_post, trip}
use open_evcharger.Safety.Transition.Laws.{
  es-transition, fs-transition, outputs-transition, session-transition,
}

pub record Inv (s : Sup) : Type 0 where
  -- The force-open latch is armed exactly in `EVSE_FAULT`.
  pub latch : s.force_open ≡ is_fault s.es
  -- In `EVSE_FAULT` the contactor is commanded open.
  pub opened : (s.relay_cmd && is_fault s.es) ≡ false
  -- A latched fault holds the supervisor in `EVSE_FAULT`.
  pub held : (Fault.any_latched_active s.fs && not (is_fault s.es)) ≡ false
  -- A session is open exactly in `EVSE_CHARGING`.
  pub charging : s.session.active ≡ is_charging s.es

-- The contactor is commanded closed only in `EVSE_CHARGING`, at pilot state C, with no latched fault.
unfoldable pub RelayOk : J1772State → Sup → Type 0
RelayOk js s =
    (s.relay_cmd && not (is_charging s.es && same js c && not (Fault.any_latched_active s.fs)))
    ≡ false

-- A transition restores all of it but the rule on latched faults, which is a premise.
into_Inv :
    (env : Env) (next : EvseState) (s : Sup)
    → s.force_open ≡ is_fault s.es
    → (s.relay_cmd && is_fault s.es) ≡ false
    → s.session.active ≡ is_charging s.es
    → (Fault.any_latched_active s.fs && not (is_fault next)) ≡ false
    → Inv (evse_transition env next s)
into_Inv env next s l o a h = record {
  latch = ground (arith, es-transition env next s, outputs-transition env next s l o);
  opened = ground (arith, es-transition env next s, outputs-transition env next s l o);
  held = rw (fs-transition env next s, es-transition env next s) h;
  charging = session-transition env next s a ∙ ap is_charging (sym (es-transition env next s));
}

pub transition-Inv :
    (env : Env) (next : EvseState) (s : Sup)
    → Inv s
    → (Fault.any_latched_active s.fs && not (is_fault next)) ≡ false
    → Inv (evse_transition env next s)
transition-Inv env next s v h = into_Inv env next s v.latch v.opened v.charging h

-- The parts of the supervisor that raising a fault leaves alone.
raise_parts :
    (id : ℕ) (js : J1772State) (cp_mv : ℤ) (s : Sup)
    → let t = raise_and_post id js cp_mv s in
      (t.es ≡ s.es)
      × (t.relay_cmd ≡ s.relay_cmd)
      × (t.force_open ≡ s.force_open)
      × (t.session.active ≡ s.session.active)
      × (t.fs ≡ (Fault.raise s.fs id).0)
unfolding raise_and_post post_fault_event
raise_parts id js cp_mv s = ground arith

-- A self-clearing fault is raised without a change of state.
pub raise_other-Inv :
    (id : ℕ) (js : J1772State) (cp_mv : ℤ) (s : Sup)
    → Fault.is_latched_kind id ≡ false
    → Inv s
    → Inv (raise_and_post id js cp_mv s)
raise_other-Inv id js cp_mv s k v =
    ground (arith, v, raise_parts id js cp_mv s, any_latched-raise_other s.fs id k)

pub raise_other-RelayOk :
    (id : ℕ) (js j : J1772State) (cp_mv : ℤ) (s : Sup)
    → Fault.is_latched_kind id ≡ false
    → RelayOk j s
    → RelayOk j (raise_and_post id js cp_mv s)
unfolding RelayOk
raise_other-RelayOk id js j cp_mv s k r =
    ground (arith, r, raise_parts id js cp_mv s, any_latched-raise_other s.fs id k)

-- Any fault that takes the supervisor to `EVSE_FAULT` keeps the invariant.
pub raise_fault-Inv :
    (env : Env) (id : ℕ) (js : J1772State) (cp_mv : ℤ) (s : Sup)
    → Inv s
    → Inv (evse_transition env fault (raise_and_post id js cp_mv s))
raise_fault-Inv env id js cp_mv s v =
    let t = raise_and_post id js cp_mv s in
    into_Inv env fault t (ground (arith, v, raise_parts id js cp_mv s))
      (ground (arith, v, raise_parts id js cp_mv s)) (ground (arith, v, raise_parts id js cp_mv s))
      (ground arith)

-- The end of a detector keeps the invariant, whatever the fault.
pub trip-Inv :
    (env : Env) (id : ℕ) (js : J1772State) (cp_mv : ℤ) (s : Sup)
    → Inv s
    → Inv (trip env id js cp_mv s)
unfolding trip
trip-Inv env id js cp_mv s v = elim (Bool-cases (Fault.is_active s.fs id)) [
  | inl a ↦ rw a v
  | inr a ↦ rw a (raise_fault-Inv env id js cp_mv s v)
]

-- It leaves the contactor open, or changes nothing.
pub trip-RelayOk :
    (env : Env) (id : ℕ) (js j : J1772State) (cp_mv : ℤ) (s : Sup)
    → Inv s
    → RelayOk j s
    → RelayOk j (trip env id js cp_mv s)
unfolding trip RelayOk
trip-RelayOk env id js j cp_mv s v r = elim (Bool-cases (Fault.is_active s.fs id)) [
  | inl a ↦ rw a r
  | inr a ↦
      let t = raise_and_post id js cp_mv s in
      rw a (
        ground (
          arith,
          outputs-transition env fault t (ground (arith, v, raise_parts id js cp_mv s))
              (ground (arith, v, raise_parts id js cp_mv s)),
        ))
]

-- From a state with the invariant, a detector of a latched fault that trips ends in `EVSE_FAULT` with
-- the fault active, also if the fault was active before.
pub trip_faults :
    (env : Env) (id : ℕ) (js : J1772State) (cp_mv : ℤ) (s : Sup)
    → Fault.is_latched_kind id ≡ true
    → Inv s
    → let t = trip env id js cp_mv s in (t.es ≡ fault) × (Fault.is_active t.fs id ≡ true)
unfolding trip
trip_faults env id js cp_mv s k v = elim (Bool-cases (Fault.is_active s.fs id)) [
  | inl a ↦ rw a (ground (arith, v, any_latched_active_of s.fs id k a), a)
  | inr a ↦
      let t = raise_and_post id js cp_mv s in
      let (p, q) = latched_range id k in
      rw a (
        es-transition env fault t,
        rw (fs-transition env fault t, (raise_parts id js cp_mv s).4)
            (is_active-raise_self s.fs id p q),
      )
]
