-- ===== src/Safety/Boot.antt =====
-- The start of `safety_task_run` in src/tasks/safety_task.c, up to its loop: the self-tests and the
-- way from BOOT to READY or FAULT.
pub mod Reach
use open_evcharger.Prelude.{
  ℕ, zero, suc, ◌+◌, Bool, true, ◌||◌, List, [], ◌∷◌, if◌then◌else◌, ltb, ◌==◌,
}
use open_evcharger.Prelude.Int.{ℤ, pos, geb}
use open_evcharger.Core.Fault
use open_evcharger.Core.J1772
use open_evcharger.Core.J1772.{J1772State, J1772Ctx, invalid}
use open_evcharger.Core.GfciPolicy.{GfciCtx}
use open_evcharger.Core.OverTemp.{OverTempCtx}
use open_evcharger.Core.Rfid.{RfidCtx}
use open_evcharger.Safety.State.{
  EvseState, boot, self_test, ready, is_fault, Env, Sup, boot_sup, boot_complete,
}
use open_evcharger.Safety.Session.{emit}
use open_evcharger.Safety.Transition.{evse_transition, trip}
use open_evcharger.Safety.Detectors.{
  check_safe_fail, st_adc_min, st_adc_max, rank_ac, rank_ct, rank_lct, rank_cp,
}
use open_evcharger.Safety.Metering.{LastCommand}
use open_evcharger.Safety.Tick.{Task, Streaks, Polls, j1772_debounce_n}

abbrev pub st_cp_pilot_present_mv : ℤ
st_cp_pilot_present_mv = pos 1500

-- The ranks out of band, counted.
unfoldable pub adc_fails : List ℕ → Env → ℕ
adc_fails [] env = 0
adc_fails (r ∷ rs) env =
    let rest = adc_fails rs env in
    if ltb (env.adc r) st_adc_min || ltb st_adc_max (env.adc r) then suc rest else rest

unfoldable pub self_test_adc_sanity : Env → ℕ
unfolding adc_fails
self_test_adc_sanity env = adc_fails (rank_ac ∷ rank_ct ∷ rank_lct ∷ rank_cp ∷ []) env

unfoldable pub self_test_relay_open : Env → ℕ
self_test_relay_open env = if env.sense_closed then 1 else 0

unfoldable pub self_test_cp_pilot_present : ℤ → ℕ
self_test_cp_pilot_present cp_mv = if geb cp_mv st_cp_pilot_present_mv then 0 else 1

unfoldable pub run_boot_self_test : Env → ℤ → ℕ
unfolding self_test_adc_sanity self_test_relay_open self_test_cp_pilot_present
run_boot_self_test env cp_mv =
    self_test_adc_sanity env + self_test_relay_open env + self_test_cp_pilot_present cp_mv

-- A return code of zero of the self-test of the ground-fault module.
abbrev pub is_zero : ℤ → Bool
is_zero (pos n) = n == 0
is_zero _ = Bool.false

unfoldable pub self_test_gfci_cal : Env → ℕ
self_test_gfci_cal env =
    if env.build.gfci_cal
    then (if is_zero env.gfci_self_test_rc then (if env.gfci_refresh_created then 0 else 1) else 1)
    else 0

-- The warm-up: `n` rounds of the classifier from the `i`-th on, on the pilot voltage each one reads.
unfoldable pub warm_up : ℕ → ℕ → (ℕ → ℤ) → J1772Ctx → J1772Ctx
warm_up zero i mv cp = cp
warm_up (suc n) i mv cp = warm_up n (suc i) mv (J1772.step cp (mv i) j1772_debounce_n)

-- A failed self-test raises its fault.
unfoldable pub fail_test : Env → ℕ → ℕ → J1772State → Sup → Sup
fail_test env fails id js s = if ltb 0 fails then trip env id js env.cp_mv s else s

-- The path from BOOT, with the pilot state that the warm-up committed.
unfoldable pub boot_path : Env → J1772State → Sup → Sup
boot_path env js s =
    let st_fails = run_boot_self_test env env.cp_mv in
    let s1 = evse_transition env self_test s in
    let s2 = fail_test env st_fails Fault.boot_self_test js s1 in
    let s3 = fail_test env (self_test_gfci_cal env) Fault.gfci_self_test js s2 in
    let s4 = check_safe_fail env js s3 in
    let s5 = evse_transition env ready s4 in
    let s6 = (if is_fault s4.es then s4 else s5) in
    emit (boot_complete (st_fails == 0) s6.fs.first_raised) s6

-- The task when its loop starts. The self-test looks at the last of the five pilot voltages.
unfoldable pub boot_task : Env → (ℕ → ℤ) → Task
boot_task env mv =
    let cp = warm_up 5 0 mv J1772.init in
    record {
      sup = boot_path (record env { cp_mv = mv 4 }) cp.committed boot_sup;
      cp = cp;
      last_logged = invalid;
      prev_js = invalid;
      prev_es = boot;
      gfci = record { trip_streak = 0; warned = Bool.false; fault_active = Bool.false };
      ot = record { trip_streak = 0; fault_active = Bool.false };
      rfid = record { buf = []; last_uid = 0; card_present = Bool.false };
      streaks = record {
        weld = 0;
        stuck_open = 0;
        cp_e = 0;
        c = 0;
        pe = 0;
        pe_log_tick = 0;
        adc_runtime = 0;
        cc = 0;
      };
      polls = record {
        div = 0;
        ac_absent = 0;
        weld = 0;
        settle = record { prev_commanded = LastCommand.unknown; settle_polls = 0 };
        stuck_open = 0;
        hoc = 0;
        soc = 0;
      };
    }
