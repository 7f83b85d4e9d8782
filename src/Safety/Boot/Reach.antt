-- ===== src/Safety/Boot/Reach.antt =====
-- The runs of the supervisor of src/tasks/safety_task.c: the boot path, then ticks and the requests
-- that other tasks post, in any order.
use open_evcharger.Prelude.{
  ℕ, ◌≡◌, refl, Bool, true, false, not, ◌&&◌, arith, Bool-cases, inl, inr, if◌then◌else◌,
}
use open_evcharger.Prelude.Int.{ℤ}
use open_evcharger.Core.Fault
use open_evcharger.Core.Fault.Latched.{any_latched-init}
use open_evcharger.Core.J1772.{J1772State}
use open_evcharger.Safety.State.{
  EvseState, self_test, ready, is_fault, is_charging, Env, Sup, Request, boot_sup,
}
use open_evcharger.Safety.Transition.{evse_transition, trip}
use open_evcharger.Safety.Transition.Laws.{outputs-transition}
use open_evcharger.Safety.Invariant.{Inv, RelayOk, transition-Inv, trip-Inv, trip-RelayOk}
use open_evcharger.Safety.Detectors.{check_safe_fail}
use open_evcharger.Safety.Metering.Laws.{Good, emit-Good}
use open_evcharger.Safety.Inbox.{post_safety_req}
use open_evcharger.Safety.Tick.{Task, tick}
use open_evcharger.Safety.Tick.Safe.{tick-Good}
use open_evcharger.Safety.Boot.{fail_test, boot_path, boot_task}

-- One step: a tick of the task, or a request that another task posts between two ticks.
pub data Step : Task → Task → Type 0 where
  ticks : (env : Env) (x : Task) → Step x (tick env x)
  posts : (r : Request) (x : Task) → Step x (record x { sup = (post_safety_req r x.sup).0 })

-- The tasks that a power-up leads to.
pub data Reach : Task → Type 0 where
  powers_up : (env : Env) (mv : ℕ → ℤ) → Reach (boot_task env mv)
  steps : {x y : Task} → Reach x → Step x y → Reach y

-- Between any two steps: the contactor is commanded closed only while charging.
pub record Safe (s : Sup) : Type 0 where
  pub inv : Inv s
  pub only_charging : (s.relay_cmd && not (is_charging s.es)) ≡ false
  pub no_latched : (s.relay_cmd && Fault.any_latched_active s.fs) ≡ false

-- On the boot path the contactor stays open, so any pilot state will do in the rule on it.
abbrev Dark : Sup → Type 0
Dark s = Good J1772State.invalid s

boot_sup-Dark : Dark boot_sup
unfolding boot_sup RelayOk
boot_sup-Dark = record { inv = ground (arith, any_latched-init); relay = refl }

trip-Dark :
    (env : Env) (id : ℕ) (js : J1772State) (s : Sup) → Dark s → Dark (trip env id js env.cp_mv s)
unfolding RelayOk
trip-Dark env id js s g = record {
  inv = trip-Inv env id js env.cp_mv s g.inv;
  relay = trip-RelayOk env id js J1772State.invalid env.cp_mv s g.inv g.relay;
}

transition-Dark :
    (env : Env) (next : EvseState) (s : Sup)
    → Dark s
    → (Fault.any_latched_active s.fs && not (is_fault next)) ≡ false
    → Dark (evse_transition env next s)
unfolding RelayOk
transition-Dark env next s g h = record {
  inv = transition-Inv env next s g.inv h;
  relay = ground (arith, g.relay, outputs-transition env next s g.inv.latch g.inv.opened);
}

if_Dark : (b : Bool) (s t : Sup) → Dark s → Dark t → Dark (if b then s else t)
if_Dark true s t g h = g
if_Dark false s t g h = h

fail_test-Dark :
    (env : Env) (n id : ℕ) (js : J1772State) (s : Sup) → Dark s → Dark (fail_test env n id js s)
unfolding fail_test
fail_test-Dark env n id js s g = if_Dark _ _ s (trip-Dark env id js s g) g

ready-Dark :
    (env : Env) (s : Sup) → Dark s → Dark (if is_fault s.es then s else evse_transition env ready s)
ready-Dark env s g = elim (Bool-cases (is_fault s.es)) [
  | inl h ↦ rw h g
  | inr h ↦ rw h (transition-Dark env ready s g (ground (arith, g.inv)))
]

boot_path-Dark : (env : Env) (js : J1772State) → Dark (boot_path env js boot_sup)
unfolding boot_path check_safe_fail
boot_path-Dark env js =
    let g1 =
      transition-Dark env self_test boot_sup boot_sup-Dark
        (unfold boot_sup in ground (arith, any_latched-init)) in
    let g2 = fail_test-Dark env _ Fault.boot_self_test js _ g1 in
    let g3 = fail_test-Dark env _ Fault.gfci_self_test js _ g2 in
    let g4 = if_Dark _ _ _ (trip-Dark env Fault.crash_loop_safe_fail js _ g3) g3 in
    emit-Good _ _ _ (ready-Dark env _ g4)

Good-Safe : (js : J1772State) (s : Sup) → Good js s → Safe s
unfolding RelayOk
Good-Safe js s g = record {
  inv = g.inv;
  only_charging = ground (arith, g.relay);
  no_latched = ground (arith, g.relay);
}

post-Safe : (r : Request) (s : Sup) → Safe s → Safe (post_safety_req r s).0
unfolding post_safety_req
post-Safe r s v = ground (arith, v)

Step-Safe : (x y : Task) → Step x y → Safe x.sup → Safe y.sup
Step-Safe _ _ (ticks env x) v = Good-Safe _ _ (tick-Good env x v.inv)
Step-Safe _ _ (posts r x) v = post-Safe r x.sup v

-- The supervisor's safety, for every run from power-up: whatever is read on each tick and whatever
-- the other tasks post, the contactor is commanded closed only in `EVSE_CHARGING` and with no
-- latched fault; `EVSE_FAULT` holds the force-open latch, every latched fault holds `EVSE_FAULT`, and
-- a session is open exactly in `EVSE_CHARGING`.
pub Reach-Safe : (x : Task) → Reach x → Safe x.sup
Reach-Safe x (powers_up env mv) = unfold boot_task in Good-Safe _ _ (boot_path-Dark _ _)
Reach-Safe x (steps {x = w} r k) = Step-Safe w x k (Reach-Safe w r)
