-- ===== src/Safety/Pilot/Duty.antt =====
-- What a vehicle reads from the pilot of src/hal/gd32f205/cp_pwm.c.
use open_evcharger.Prelude.{ℕ, ◌+◌, ◌-◌, ◌*◌, ◌/◌, ◌≤◌, ◌<◌, arith, if◌then◌else◌, ltb, leb}
use open_evcharger.Safety.State.{Env}
use open_evcharger.Safety.Session.{effective_advertised_amps}
use open_evcharger.Safety.Session.Laws.{amps-bounds}
use open_evcharger.Safety.Pilot.{
  update_ch3_for_low_sample, duty_of, with_ccr, cp_pwm_set_advertise_amps,
}

-- The current that SAE J1772 assigns to a high phase of `ch2` ticks of 1000, in tenths of an ampere:
-- 0.6 A for each percent from 10 % to 85 %, then 2.5 A for each percent above 64 % up to 96 %, and
-- none elsewhere.
abbrev pub offered_tenths : ℕ → ℕ
offered_tenths ch2 =
    if ltb ch2 100
    then 0
    else if leb ch2 850
    then ch2 * 6 / 10
    else if leb ch2 960
    then (ch2 - 640) * 25 / 10
    else 0

-- For every current of 6 A to 80 A the pilot offers a vehicle no more than that current, and at most
-- 3 A less, with a high phase of 10 % to 96 %; the low phase is sampled inside of it.
pub offered_bounds :
    (amps : ℕ)
    → 6 ≤ amps
    → amps ≤ 80
    → let t = cp_pwm_set_advertise_amps amps in
      (offered_tenths t.ch2 ≤ amps * 10)
      × (amps * 10 ≤ offered_tenths t.ch2 + 30)
      × (100 ≤ t.ch2)
      × (t.ch2 ≤ 960)
      × (t.ch2 < t.ch3)
      × (t.ch3 < 999)
unfolding cp_pwm_set_advertise_amps with_ccr duty_of update_ch3_for_low_sample
offered_bounds amps lo hi = ground arith

-- Up to 51 A a larger current never gives a shorter high phase.
pub offered_mono :
    (amps k : ℕ)
    → 6 ≤ amps
    → amps + k ≤ 51
    → (cp_pwm_set_advertise_amps amps).ch2 ≤ (cp_pwm_set_advertise_amps (amps + k)).ch2
unfolding cp_pwm_set_advertise_amps with_ccr duty_of
offered_mono amps k lo hi = ground arith

-- Whatever the settings and the derate, the pilot offers a vehicle at most the supervisor's offer,
-- less than an ampere below it, and never more than 48 A.
pub supervisor_offer :
    (env : Env) (derate : ℕ)
    → let adv = effective_advertised_amps env derate in
      let t = cp_pwm_set_advertise_amps adv in
      (offered_tenths t.ch2 ≤ adv * 10)
      × (adv * 10 < offered_tenths t.ch2 + 10)
      × (offered_tenths t.ch2 ≤ 480)
unfolding cp_pwm_set_advertise_amps with_ccr duty_of
supervisor_offer env derate = ground (arith, amps-bounds env derate 0)
