-- ===== src/Safety/Metering/SoftLimit.antt =====
-- The ramp of `check_soft_over_current` in src/tasks/safety_task.c.
use open_evcharger.Prelude.{ℕ, ◌+◌, ◌≡◌, ◌≤◌, ◌<◌, true, false, arith}
use open_evcharger.Core.Fault
use open_evcharger.Core.Fault.Laws.{is_active-raise_self}
use open_evcharger.Core.J1772.{J1772State}
use open_evcharger.Safety.State.{Env, Sup}
use open_evcharger.Safety.Session.{effective_advertised_amps, post_fault_event}
use open_evcharger.Safety.Session.Laws.{amps-bounds}
use open_evcharger.Safety.Transition.{raise_and_post}
use open_evcharger.Safety.Metering.{
  milliamps, uncalibrated, soc_threshold_ma, soc_step, soc_react, raise_inactive,
  check_soft_over_current,
}

-- A step of the ramp: above the floor the offer falls, and the byte of the derate does not wrap.
ramp_falls :
    (env : Env) (d : ℕ)
    → 6 < effective_advertised_amps env d
    → (d + soc_step (effective_advertised_amps env d) < 256)
      × (effective_advertised_amps env (d + soc_step (effective_advertised_amps env d))
          < effective_advertised_amps env d)
unfolding effective_advertised_amps soc_step
ramp_falls env d h = ground arith

active-raise_inactive :
    (env : Env) (js : J1772State) (s : Sup)
    → Fault.is_active (raise_inactive env Fault.soft_over_current js s).fs Fault.soft_over_current
      ≡ true
unfolding raise_inactive raise_and_post post_fault_event
active-raise_inactive env js s =
    ground (arith, is_active-raise_self s.fs Fault.soft_over_current (omega arith) (omega arith))

-- A poll over the soft threshold, after 75 of them in a row: above the floor of 6 A the offer falls
-- strictly, without wrapping, no fault is raised and the count starts again; at the floor the
-- soft over-current fault is active after it.
pub soft_over_current-ramp :
    (env : Env) (js : J1772State) (s : Sup)
    → env.bl.valid ≡ true
    → uncalibrated env ≡ false
    → let adv = effective_advertised_amps env s.soc_derate_amps in
      soc_threshold_ma adv < milliamps env
      → let (t, n) = check_soft_over_current env js s 75 in
        (6 < adv
          → (t.soc_derate_amps < 256)
            × (effective_advertised_amps env t.soc_derate_amps < adv)
            × (t.fs ≡ s.fs)
            × (n ≡ 0))
        × (adv ≤ 6 → Fault.is_active t.fs Fault.soft_over_current ≡ true)
unfolding check_soft_over_current soc_react
soft_over_current-ramp env js s v u h = ground (
  arith,
  v,
  u,
  h,
  ramp_falls env s.soc_derate_amps,
  amps-bounds env s.soc_derate_amps 0,
  active-raise_inactive env js s,
)
