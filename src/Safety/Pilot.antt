-- ===== src/Safety/Pilot.antt =====
-- The pilot driver of src/hal/gd32f205/cp_pwm.c: the compare values that it gives the timer, of 1000
-- ticks a period. The timer's own set-up is not modelled.
pub mod Duty
use open_evcharger.Prelude.{ℕ, ◌+◌, ◌-◌, ◌*◌, ◌/◌, ◌||◌, if◌then◌else◌, ltb, leb}
use open_evcharger.Safety.State.{CpOut, state_f, idle_high, advertise}

abbrev pub cp_pwm_arr : ℕ
cp_pwm_arr = 999

abbrev pub cp_pwm_ccr_high : ℕ
cp_pwm_ccr_high = cp_pwm_arr + 1

abbrev pub cp_pwm_ccr_low : ℕ
cp_pwm_ccr_low = 0

-- The compare values of channels 2 and 3: the ticks of a period that the pilot is high, and when the
-- low phase is sampled.
pub record Timer : Type 0 where
  pub ch2 : ℕ
  pub ch3 : ℕ

unfoldable pub update_ch3_for_low_sample : ℕ → ℕ
update_ch3_for_low_sample ccr =
    let mid = (ccr + cp_pwm_arr) / 2 in if ltb (cp_pwm_arr - 1) mid then cp_pwm_arr - 1 else mid

unfoldable pub with_ccr : ℕ → Timer
unfolding update_ch3_for_low_sample
with_ccr ccr = record { ch2 = ccr; ch3 = update_ch3_for_low_sample ccr }

unfoldable pub cp_pwm_set_idle_high : Timer
unfolding with_ccr
cp_pwm_set_idle_high = with_ccr cp_pwm_ccr_high

unfoldable pub cp_pwm_set_state_f : Timer
unfolding with_ccr
cp_pwm_set_state_f = with_ccr cp_pwm_ccr_low

-- The duty in percent, before its cap.
unfoldable pub duty_of : ℕ → ℕ
duty_of amps = if leb amps 51 then amps * 10 / 6 else amps * 10 / 25 + 64

unfoldable pub cp_pwm_set_advertise_amps : ℕ → Timer
unfolding cp_pwm_set_idle_high duty_of with_ccr
cp_pwm_set_advertise_amps amps =
    let duty_pct = duty_of amps in
    let capped = (if ltb 96 duty_pct then 96 else duty_pct) in
    if ltb amps 6 || ltb 80 amps then cp_pwm_set_idle_high else with_ccr (capped * 10)

-- The call of the driver that the supervisor's output stands for.
unfoldable pub set_pilot : CpOut → Timer
set_pilot state_f = cp_pwm_set_state_f
set_pilot idle_high = cp_pwm_set_idle_high
set_pilot (advertise amps) = cp_pwm_set_advertise_amps amps
