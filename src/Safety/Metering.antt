-- ===== src/Safety/Metering.antt =====
-- The detectors of src/tasks/safety_task.c that run once per poll of the metering chip, and the
-- energy integration.
pub mod Laws
pub mod SoftLimit
use open_evcharger.Prelude.{
  ℕ, ◌+◌, ◌-◌, ◌*◌, ◌/◌, ◌%◌, min, Bool, true, false, not, ◌&&◌, ◌||◌, if◌then◌else◌, ltb, leb,
  ◌==◌,
}
use open_evcharger.Prelude.Int.{ℤ, pos, pos_part, geb, ◌*ℤ◌}
use open_evcharger.Core.Fault
use open_evcharger.Core.J1772.{J1772State}
use open_evcharger.Safety.State.{EvseState, is_charging, Env, Sup, fault_cleared}
use open_evcharger.Safety.Session.{emit, effective_advertised_amps, hw_amps_max, soc_derate_floor_a}
use open_evcharger.Safety.Transition.{raise_and_post, trip}
use open_evcharger.Safety.Detectors.{bump}

abbrev pub detector_persist : ℕ
detector_persist = 3

abbrev pub stuck_open_persist : ℕ
stuck_open_persist = 75

abbrev pub weld_settle_polls : ℕ
weld_settle_polls = 8

abbrev pub v_rms_ac_present_raw : ℕ
v_rms_ac_present_raw = 0x80000

abbrev pub soc_persist_polls : ℕ
soc_persist_polls = 75

abbrev pub hoc_persist_polls : ℕ
hoc_persist_polls = 13

-- `raise_and_post` of a self-clearing fault that is not active already.
unfoldable pub raise_inactive : Env → ℕ → J1772State → Sup → Sup
raise_inactive env id js s = if Fault.is_active s.fs id then s else raise_and_post id js env.cp_mv s

unfoldable pub check_ac_absent : Env → J1772State → Sup → ℕ → Sup × ℕ
unfolding raise_inactive
check_ac_absent env js s streak =
    let n = bump detector_persist streak in
    let cleared = record s { fs = (Fault.clear s.fs Fault.ac_absent).0 } in
    if not env.bl.valid
    then (s, streak)
    else if ltb env.bl.v_rms v_rms_ac_present_raw
    then (if leb detector_persist n then raise_inactive env Fault.ac_absent js s else s, n)
    else (if Fault.is_active s.fs Fault.ac_absent then cleared else s, 0)

-- Milliamps from the raw count, with a positive scale in nA per count.
unfoldable pub milliamps : Env → ℕ
milliamps env = env.bl.ia_rms * pos_part env.ia_na_per_raw / 1000000

-- `scale <= 0`
abbrev pub uncalibrated : Env → Bool
uncalibrated env = geb (pos 0) env.ia_na_per_raw

-- The static variables of the weld detector; the command is -1 before the first poll.
pub data LastCommand : Type 0 where
  unknown opened closed : LastCommand

abbrev pub command_of : Bool → LastCommand
command_of true = closed
command_of false = opened

pub record WeldSettle : Type 0 where
  pub prev_commanded : LastCommand
  pub settle_polls : ℕ

-- `if (s_prev_commanded == 1 && now_commanded == 0)` the window starts anew.
unfoldable pub settle_start : WeldSettle → Bool → ℕ
settle_start w now = elim w.prev_commanded [
  | closed ↦ (if now then w.settle_polls else weld_settle_polls)
  | _ ↦ w.settle_polls
]

unfoldable pub check_relay_weld_bl0939 :
    Env → J1772State → Sup → ℕ → WeldSettle → Sup × ℕ × WeldSettle
unfolding settle_start milliamps
check_relay_weld_bl0939 env js s streak w =
    let left = settle_start w s.relay_cmd in
    let n =
      (if leb 500 (milliamps env) && not s.relay_cmd then bump detector_persist streak else 0) in
    if not env.bl.valid
    then (s, streak, w)
    else if uncalibrated env
    then (s, 0, w)
    else if ltb 0 left
    then (s, 0, record { prev_commanded = command_of s.relay_cmd; settle_polls = left - 1 })
    else (
      if leb detector_persist n then trip env Fault.relay_weld js env.cp_mv s else s,
      n,
      record { prev_commanded = command_of s.relay_cmd; settle_polls = left },
    )

unfoldable pub check_relay_stuck_open_bl0939 : Env → J1772State → Sup → ℕ → Sup × ℕ
unfolding milliamps
check_relay_stuck_open_bl0939 env js s streak =
    let n = (if ltb (milliamps env) 500 then bump stuck_open_persist streak else 0) in
    if not env.bl.valid
    then (s, streak)
    else if uncalibrated env
    then (s, 0)
    else if not (is_charging s.es) || not s.relay_cmd
    then (s, 0)
    else (if leb stuck_open_persist n then trip env Fault.relay_stuck_open js env.cp_mv s else s, n)

-- 120 % of the amps on offer, but no more than 125 % of the hardware's.
unfoldable pub hoc_threshold_ma : ℕ → ℕ
hoc_threshold_ma adv = min (adv * 1000 * 120 / 100) (hw_amps_max * 1000 * 125 / 100)

unfoldable pub check_hard_over_current : Env → J1772State → Sup → ℕ → Sup × ℕ
unfolding milliamps
check_hard_over_current env js s streak =
    let adv = effective_advertised_amps env s.soc_derate_amps in
    let n =
      (if ltb (hoc_threshold_ma adv) (milliamps env) then bump hoc_persist_polls streak else 0) in
    if not env.bl.valid
    then (s, streak)
    else if uncalibrated env
    then (s, 0)
    else if adv == 0
    then (s, 0)
    else (if leb hoc_persist_polls n then trip env Fault.hard_over_current js env.cp_mv s else s, n)

-- 105 % of the amps on offer.
unfoldable pub soc_threshold_ma : ℕ → ℕ
soc_threshold_ma adv = adv * 1000 * 105 / 100

-- A tenth of the amps on offer, or one.
unfoldable pub soc_step : ℕ → ℕ
soc_step adv = if leb 10 adv then adv / 10 else 1

-- The fault clears as soon as the current is back within the threshold.
unfoldable pub soc_recover : Sup → Sup
soc_recover s =
    if Fault.is_active s.fs Fault.soft_over_current
    then emit (fault_cleared Fault.soft_over_current)
        (record s { fs = (Fault.clear s.fs Fault.soft_over_current).0 })
    else s

-- After 30 s over the threshold: a ramp down, or the fault if the offer is at the floor.
unfoldable pub soc_react : Env → J1772State → ℕ → Sup → ℕ → Sup × ℕ
unfolding soc_step raise_inactive
soc_react env js adv s streak =
    if ltb soc_derate_floor_a adv
    then (record s { soc_derate_amps = (s.soc_derate_amps + soc_step adv) % 256 }, 0)
    else (raise_inactive env Fault.soft_over_current js s, streak)

unfoldable pub check_soft_over_current : Env → J1772State → Sup → ℕ → Sup × ℕ
unfolding milliamps soc_threshold_ma
check_soft_over_current env js s streak =
    let adv = effective_advertised_amps env s.soc_derate_amps in
    if not env.bl.valid
    then (s, streak)
    else if uncalibrated env
    then (s, 0)
    else if adv == 0
    then (s, 0)
    else if leb (milliamps env) (soc_threshold_ma adv)
    then (soc_recover s, 0)
    else if ltb streak soc_persist_polls
    then (s, streak + 1)
    else soc_react env js adv s streak

-- The energy of one poll period of 20 ticks of 20 ms, counted only while the contactor is commanded
-- closed in a session, and only if the power is positive.
unfoldable pub integrate : Env → Sup → Sup
unfolding ◌*ℤ◌
integrate env s =
    let uw = pos_part (env.bl.a_watt *ℤ env.pa_uw_per_raw) in
    if s.session.active && s.relay_cmd
    then record s {
      session = record s.session { mws_accum = s.session.mws_accum + uw * 20 * 20 / 1000000 };
    }
    else s
