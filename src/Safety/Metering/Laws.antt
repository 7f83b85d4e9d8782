-- ===== src/Safety/Metering/Laws.antt =====
-- The metering detectors of src/tasks/safety_task.c keep the supervisor's invariant, and the rule
-- on the closed contactor.
use open_evcharger.Prelude.{ℕ, ◌≡◌, refl, false, arith}
use open_evcharger.Core.Fault
use open_evcharger.Core.Fault.Latched.{any_latched-clear_other}
use open_evcharger.Core.J1772.{J1772State}
use open_evcharger.Safety.State.{Env, Sup, Output}
use open_evcharger.Safety.Session.{emit, effective_advertised_amps}
use open_evcharger.Safety.Transition.{trip, raise_and_post}
use open_evcharger.Safety.Invariant.{
  Inv, RelayOk, trip-Inv, trip-RelayOk, raise_other-Inv, raise_other-RelayOk,
}
use open_evcharger.Safety.Detectors.Laws.{if_holds}
use open_evcharger.Safety.Metering.{
  WeldSettle, raise_inactive, check_ac_absent, check_relay_weld_bl0939,
  check_relay_stuck_open_bl0939, check_hard_over_current, soc_recover, soc_react,
  check_soft_over_current, integrate,
}

-- The invariant with the rule on the closed contactor.
pub record Good (js : J1772State) (s : Sup) : Type 0 where
  pub inv : Inv s
  pub relay : RelayOk js s

trip-Good :
    (env : Env) (id : ℕ) (js : J1772State) (s : Sup)
    → Good js s
    → Good js (trip env id js env.cp_mv s)
trip-Good env id js s g = record {
  inv = trip-Inv env id js env.cp_mv s g.inv;
  relay = trip-RelayOk env id js js env.cp_mv s g.inv g.relay;
}

raise_inactive-Good :
    (env : Env) (id : ℕ) (js : J1772State) (s : Sup)
    → Fault.is_latched_kind id ≡ false
    → Good js s
    → Good js (raise_inactive env id js s)
unfolding raise_inactive
raise_inactive-Good env id js s k g =
    if_holds (Good js) _ s (raise_and_post id js env.cp_mv s) g (record {
      inv = raise_other-Inv id js env.cp_mv s k g.inv;
      relay = raise_other-RelayOk id js js env.cp_mv s k g.relay;
    })

clear_other-Good :
    (id : ℕ) (js : J1772State) (s : Sup)
    → Fault.is_latched_kind id ≡ false
    → Good js s
    → Good js (record s { fs = (Fault.clear s.fs id).0 })
unfolding RelayOk
clear_other-Good id js s k g = record {
  inv = ground (arith, g.inv, any_latched-clear_other s.fs id k);
  relay = ground (arith, g.relay, any_latched-clear_other s.fs id k);
}

pub emit-Good : (o : Output) (js : J1772State) (s : Sup) → Good js s → Good js (emit o s)
unfolding emit RelayOk
emit-Good o js s g = record { inv = ground (arith, g); relay = g.relay }

module _ (env : Env) (js : J1772State) (s : Sup) (g : Good js s) where
  pub check_ac_absent-Good : (n : ℕ) → Good js (check_ac_absent env js s n).0
  unfolding check_ac_absent
  check_ac_absent-Good n = ground (
    arith,
    g,
    raise_inactive-Good env Fault.ac_absent js s (unfold Fault.is_latched_kind in refl) g,
    clear_other-Good Fault.ac_absent js s (unfold Fault.is_latched_kind in refl) g,
  )

  pub check_relay_weld_bl0939-Good :
      (n : ℕ) (w : WeldSettle) → Good js (check_relay_weld_bl0939 env js s n w).0
  unfolding check_relay_weld_bl0939
  check_relay_weld_bl0939-Good n w = ground (arith, g, trip-Good env Fault.relay_weld js s g)

  pub check_relay_stuck_open_bl0939-Good :
      (n : ℕ) → Good js (check_relay_stuck_open_bl0939 env js s n).0
  unfolding check_relay_stuck_open_bl0939
  check_relay_stuck_open_bl0939-Good n =
      ground (arith, g, trip-Good env Fault.relay_stuck_open js s g)

  pub check_hard_over_current-Good : (n : ℕ) → Good js (check_hard_over_current env js s n).0
  unfolding check_hard_over_current
  check_hard_over_current-Good n = ground (arith, g, trip-Good env Fault.hard_over_current js s g)

  soc_recover-Good : Good js (soc_recover s)
  unfolding soc_recover
  soc_recover-Good =
      if_holds (Good js) _ _ s
        (emit-Good _ js _
          (clear_other-Good Fault.soft_over_current js s (unfold Fault.is_latched_kind in refl) g))
        g

  soc_react-Good : (adv n : ℕ) → Good js (soc_react env js adv s n).0
  unfolding soc_react RelayOk
  soc_react-Good adv n = ground (
    arith,
    g,
    raise_inactive-Good env Fault.soft_over_current js s (unfold Fault.is_latched_kind in refl) g,
  )

  pub check_soft_over_current-Good : (n : ℕ) → Good js (check_soft_over_current env js s n).0
  unfolding check_soft_over_current
  check_soft_over_current-Good n = ground (
    arith,
    g,
    soc_recover-Good,
    soc_react-Good (effective_advertised_amps env s.soc_derate_amps) n,
  )

  pub integrate-Good : Good js (integrate env s)
  unfolding integrate RelayOk
  integrate-Good = record { inv = ground (arith, g); relay = ground (arith, g) }
