-- ===== src/Tests/Panel.antt =====
-- Tests of the buttons of src/ui/ and of the pilot driver.
use open_evcharger.Prelude.{ℕ, ◌+◌, ◌*◌, ◌≤◌, ◌<◌, ◌≡◌, refl, true, false, arith}
use open_evcharger.Safety.Session.{effective_advertised_amps}
use open_evcharger.Safety.Pilot.{cp_pwm_set_advertise_amps, with_ccr, duty_of}
use open_evcharger.Safety.Pilot.Duty.{offered_tenths, supervisor_offer}
use open_evcharger.Tests.Supervisor.{at_c}
use open_evcharger.Ui.Buttons.{ButtonId, top, mid, Buttons, classify_ladder, buttons_poll}
use open_evcharger.Ui.Buttons.Debounce.{poll-commits}

supervisor_offer_example :
    let adv = effective_advertised_amps (at_c 0) 3 in
    let t = cp_pwm_set_advertise_amps adv in
    (offered_tenths t.ch2 ≤ adv * 10)
    × (adv * 10 < offered_tenths t.ch2 + 10)
    × (offered_tenths t.ch2 ≤ 480)
supervisor_offer_example = supervisor_offer (at_c 0) 3

-- The duty falls from 51 A to 52 A.
duty_dips : ((cp_pwm_set_advertise_amps 51).ch2 ≡ 850) × ((cp_pwm_set_advertise_amps 52).ch2 ≡ 840)
unfolding cp_pwm_set_advertise_amps with_ccr duty_of
duty_dips = (refl, refl)

-- The top button is held down, and the pin's button is about to be debounced.
abbrev holding : Buttons
holding = record {
  committed = top;
  candidate = top;
  count = 3;
  pc9_committed = false;
  pc9_candidate = true;
  pc9_count = 2;
  pending_event = top;
}

band_mid : (raw : ℕ) → 800 ≤ raw → raw ≤ 1700 → (held : ButtonId) → classify_ladder held raw ≡ mid
unfolding classify_ladder
band_mid raw lo hi held = ground arith

poll-commits_example :
    (buttons_poll 1700 false (buttons_poll 1200 true (buttons_poll 800 false holding))).committed
    ≡ mid
poll-commits_example =
    poll-commits mid 800 1200 1700 false true false holding
      (band_mid 800 (omega arith) (omega arith)) (band_mid 1200 (omega arith) (omega arith))
      (band_mid 1700 (omega arith) (omega arith))
