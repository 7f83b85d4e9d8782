-- ===== src/Tests/Supervisor.antt =====
-- Tests of the supervisor of src/tasks/safety_task.c.
use open_evcharger.Prelude.{
  ℕ, zero, suc, ◌≤◌, ◌<◌, ◌≡◌, ◌⊎◌, refl, true, false, not, ◌||◌, [], arith,
}
use open_evcharger.Prelude.Int.{pos}
use open_evcharger.Core.Fault
use open_evcharger.Core.Fault.Latched.{any_latched-init}
use open_evcharger.Core.J1772.{same, c}
use open_evcharger.Core.Rfid.Frames.{card_frame}
use open_evcharger.Safety.State.{advertise, ready, charging, fault, Env, Sup, no_session}
use open_evcharger.Safety.Session.{effective_advertised_amps}
use open_evcharger.Safety.Transition.{trip}
use open_evcharger.Safety.Transition.Laws.{es-transition}
use open_evcharger.Safety.Invariant.{Inv, trip_faults}
use open_evcharger.Safety.Metering.{milliamps, soc_threshold_ma, check_soft_over_current}
use open_evcharger.Safety.Metering.Laws.{Good}
use open_evcharger.Safety.Metering.SoftLimit.{soft_over_current-ramp}
use open_evcharger.Safety.Progress.{update_evse_from_j1772, drop_authorization, advance}
use open_evcharger.Safety.Progress.Laws.{update_charging}
use open_evcharger.Safety.Tick.{Task, tick}
use open_evcharger.Safety.Tick.Safe.{tick-Good}
use open_evcharger.Safety.Boot.{boot_task}
use open_evcharger.Safety.Boot.Reach.{Reach, powers_up, steps, ticks, Safe, Reach-Safe}

-- A healthy charger with a vehicle at state C that draws `raw` counts of current.
abbrev pub at_c : ℕ → Env
at_c raw = record {
  build = record {
    pe_detector = false;
    cc_detector = false;
    relay_feedback = false;
    gfci_cal = false;
    ntc1_present = true;
    gun_ntc_present = true;
  };
  now = 5000;
  cp_mv = pos 6000;
  dip1_closed = false;
  advertised_amps = 32;
  require_rfid_auth = false;
  gfci_fault_policy = 0;
  safe_fail = false;
  gfci_window = false;
  gfci_line = false;
  gfci_self_test_rc = pos 0;
  gfci_refresh_created = true;
  sense_closed = false;
  adc = λ rank. 2000;
  bl = record { valid = true; v_rms = 0x90000; ia_rms = raw; a_watt = pos 1000 };
  ia_na_per_raw = pos 3000;
  pa_uw_per_raw = pos 5000;
  rx = card_frame 1 2 3 4 0;
  authlist_contains = λ uid. false;
  authlist_count = 0;
}

-- The supervisor in a session.
abbrev in_session : Sup
in_session = record {
  fs = Fault.init;
  es = charging;
  relay_cmd = true;
  force_open = false;
  cp_out = advertise 32;
  session = record no_session { active = true; start_ts = 1000; mws_accum = 7200000 };
  soc_derate_amps = 0;
  rfid_learn_ticks = 0;
  replug_window_ticks = 0;
  session_authorized = true;
  inbox = [];
  out = [];
}

in_session-Inv : Inv in_session
in_session-Inv = ground (arith, any_latched-init)

-- `n` ticks.
abbrev ticked : ℕ → Env → Task → Task
ticked zero env x = x
ticked (suc n) env x = tick env (ticked n env x)

ticked-Reach : (n : ℕ) (env : Env) (x : Task) → Reach x → Reach (ticked n env x)
ticked-Reach zero env x r = r
ticked-Reach (suc n) env x r = steps (ticked-Reach n env x r) (ticks env (ticked n env x))

-- The task 60 ticks after it came up with a vehicle at state C.
abbrev a_while : Task
a_while = ticked 60 (at_c 9000000) (boot_task (at_c 0) (λ i. pos 6000))

Reach-Safe_example : Safe a_while.sup
Reach-Safe_example =
    Reach-Safe a_while (ticked-Reach 60 (at_c 9000000) _ (powers_up (at_c 0) (λ i. pos 6000)))

tick-Good_example :
    Good
      (tick (at_c 0) (record a_while { sup = in_session })).cp.committed
      (tick (at_c 0) (record a_while { sup = in_session })).sup
tick-Good_example = tick-Good (at_c 0) (record a_while { sup = in_session }) in_session-Inv

abbrev waiting : Sup
waiting = record in_session { es = ready; relay_cmd = false; session = no_session }

abbrev progressed : Sup
progressed = (update_evse_from_j1772 (at_c 0) c waiting 49).0

waiting-starts : progressed.es ≡ charging
unfolding update_evse_from_j1772 drop_authorization advance
waiting-starts = es-transition (at_c 0) charging waiting

update_charging_example :
    (same c c ≡ true)
    × ((ready ≡ charging) ⊎ ((ready ≡ ready) × (49 ≤ 49) × ((not false || true) ≡ true)))
update_charging_example = update_charging (at_c 0) c waiting 49 waiting-starts

trip_faults_example :
    let t = trip (at_c 0) Fault.gfci c (pos 6000) in_session in
    (t.es ≡ fault) × (Fault.is_active t.fs Fault.gfci ≡ true)
unfolding Fault.is_latched_kind
trip_faults_example = trip_faults (at_c 0) Fault.gfci c (pos 6000) in_session refl in_session-Inv

over : soc_threshold_ma (effective_advertised_amps (at_c 15000000) 0) < milliamps (at_c 15000000)
unfolding soc_threshold_ma effective_advertised_amps milliamps
over = omega arith

-- 45 A over the limit of an offer of 32 A.
soft_over_current-ramp_example :
    let adv = effective_advertised_amps (at_c 15000000) 0 in
    let (t, n) = check_soft_over_current (at_c 15000000) c in_session 75 in
    (6 < adv
      → (t.soc_derate_amps < 256)
        × (effective_advertised_amps (at_c 15000000) t.soc_derate_amps < adv)
        × (t.fs ≡ Fault.init)
        × (n ≡ 0))
    × (adv ≤ 6 → Fault.is_active t.fs Fault.soft_over_current ≡ true)
soft_over_current-ramp_example = soft_over_current-ramp (at_c 15000000) c in_session refl refl over
