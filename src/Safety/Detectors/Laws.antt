-- ===== src/Safety/Detectors/Laws.antt =====
-- The per-tick detectors of src/tasks/safety_task.c keep the supervisor's invariant.
use open_evcharger.Prelude.{ℕ, refl, Bool, true, false, arith, Bool-cases, inl, inr, if◌then◌else◌}
use open_evcharger.Prelude.Int.{ℤ, pos}
use open_evcharger.Core.Fault
use open_evcharger.Core.Fault.Latched.{any_latched-clear_other}
use open_evcharger.Core.J1772.{J1772State, invalid}
use open_evcharger.Core.GfciPolicy.{GfciCtx, GfciAction, no_action, warn_emit, raise_fault}
use open_evcharger.Core.OverTemp.{OverTempCtx}
use open_evcharger.Safety.State.{
  EvseState, ready, cooling_down, is_fault, is_cooling, Env, Sup, Output, diag_adc,
}
use open_evcharger.Safety.Session.{emit, post_fault_event}
use open_evcharger.Safety.Transition.{raise_and_post}
use open_evcharger.Safety.Invariant.{
  Inv, transition-Inv, trip-Inv, raise_other-Inv, raise_fault-Inv,
}
use open_evcharger.Safety.Detectors.{
  check_safe_fail, check_relay_weld, check_relay_stuck_open, check_gfci, check_pe_continuity,
  check_cp_regression, check_cc_out_of_range, check_adc_runtime, check_cp_e, on_trip, on_clear,
  carry_out, check_over_temp,
}

pub emit-Inv : (o : Output) (s : Sup) → Inv s → Inv (emit o s)
unfolding emit
emit-Inv o s v = ground arith

pub post-Inv :
    (id : ℕ) (js : J1772State) (cp_mv : ℤ) (s : Sup) → Inv s → Inv (post_fault_event id js cp_mv s)
unfolding post_fault_event
post-Inv id js cp_mv s v = ground arith

-- A property of both branches.
pub if_holds {ℓ} : (P : Sup → Type ℓ) (b : Bool) (s t : Sup) → P s → P t → P (if b then s else t)
if_holds P true s t v w = v
if_holds P false s t v w = w

module _ (env : Env) (js : J1772State) (s : Sup) (v : Inv s) where
  pub check_safe_fail-Inv : Inv (check_safe_fail env js s)
  unfolding check_safe_fail
  check_safe_fail-Inv = if_holds Inv _ _ _ (trip-Inv env _ js env.cp_mv s v) v

  pub check_relay_weld-Inv : (n : ℕ) → Inv (check_relay_weld env js s n).0
  unfolding check_relay_weld
  check_relay_weld-Inv n = if_holds Inv _ _ _ (trip-Inv env _ js env.cp_mv s v) v

  pub check_relay_stuck_open-Inv : (n : ℕ) → Inv (check_relay_stuck_open env js s n).0
  unfolding check_relay_stuck_open
  check_relay_stuck_open-Inv n =
      ground (arith, v, trip-Inv env Fault.relay_stuck_open js env.cp_mv s v)

  carry_out-Inv : (act : GfciAction) → Inv (carry_out env js s act)
  unfolding carry_out
  carry_out-Inv no_action = v
  carry_out-Inv warn_emit = post-Inv Fault.gfci js env.cp_mv s v
  carry_out-Inv raise_fault = raise_fault-Inv env Fault.gfci js env.cp_mv s v

  pub check_gfci-Inv : (ctx : GfciCtx) → Inv (check_gfci env js s ctx).0
  unfolding check_gfci
  check_gfci-Inv ctx = carry_out-Inv _

  pub check_pe_continuity-Inv : (n k : ℕ) → Inv (check_pe_continuity env js s n k).0
  unfolding check_pe_continuity
  check_pe_continuity-Inv n k =
      let t = emit (diag_adc (env.adc 6) js s.es) s in
      let w = emit-Inv (diag_adc (env.adc 6) js s.es) s v in
      ground (
        arith,
        v,
        w,
        trip-Inv env Fault.pe_continuity js env.cp_mv s v,
        trip-Inv env Fault.pe_continuity js env.cp_mv t w,
      )

  pub check_cp_regression-Inv :
      (prev_js : J1772State) (prev_es : EvseState)
      → Inv (check_cp_regression env prev_js js prev_es s)
  unfolding check_cp_regression
  check_cp_regression-Inv prev_js prev_es = if_holds Inv _ _ _ (post-Inv _ js env.cp_mv s v) v

  pub check_cc_out_of_range-Inv : (n : ℕ) → Inv (check_cc_out_of_range env js s n).0
  unfolding check_cc_out_of_range
  check_cc_out_of_range-Inv n =
      ground (arith, v, trip-Inv env Fault.cc_out_of_range js env.cp_mv s v)

  pub check_adc_runtime-Inv : (n : ℕ) → Inv (check_adc_runtime env js s n).0
  unfolding check_adc_runtime
  check_adc_runtime-Inv n = ground (arith, v, trip-Inv env Fault.adc_out_of_range js env.cp_mv s v)

  pub check_cp_e-Inv : (n : ℕ) → Inv (check_cp_e env js s n).0
  unfolding check_cp_e
  check_cp_e-Inv n = ground (arith, v, trip-Inv env Fault.cp_no_pilot js env.cp_mv s v)

module _ (env : Env) (s : Sup) (v : Inv s) where
  on_trip-Inv : Inv (on_trip env s)
  unfolding on_trip
  on_trip-Inv =
      let w =
        raise_other-Inv Fault.over_temp invalid (pos 0) s (unfold Fault.is_latched_kind in refl)
          v in
      let t = raise_and_post Fault.over_temp invalid (pos 0) s in
      elim (Bool-cases (is_fault t.es)) [
        | inl f ↦ rw f w
        | inr f ↦ rw f (transition-Inv env cooling_down t w (ground (arith, w)))
      ]

  clear_other-Inv : Inv (record s { fs = (Fault.clear s.fs Fault.over_temp).0 })
  clear_other-Inv = ground (
    arith,
    v,
    any_latched-clear_other s.fs Fault.over_temp (unfold Fault.is_latched_kind in refl),
  )

  on_clear-Inv : Inv (on_clear env s)
  unfolding on_clear
  on_clear-Inv =
      let t : Sup = record s { fs = (Fault.clear s.fs Fault.over_temp).0 } in
      elim (Bool-cases (is_cooling s.es)) [
        | inl f ↦
            rw f (transition-Inv env ready t clear_other-Inv (ground (arith, clear_other-Inv)))
        | inr f ↦ rw f clear_other-Inv
      ]

  pub check_over_temp-Inv : (ctx : OverTempCtx) → Inv (check_over_temp env s ctx).0
  unfolding check_over_temp
  check_over_temp-Inv ctx = if_holds Inv _ _ _ on_trip-Inv (if_holds Inv _ _ _ on_clear-Inv v)
