-- ===== src/Ui/Buzzer/Quiet.antt =====
-- What the buzzer of src/ui/buzzer.c comes to: beeps end, alarms go on.
use open_evcharger.Prelude.{
  ℕ, ◌+◌, ◌-◌, ◌%◌, ◌^◌, ◌≡◌, ◌≢◌, ◌≤◌, ◌<◌, refl, sym, ap, ◌∙◌, Bool, true, false, if◌then◌else◌,
  ◌==◌, ltb, leb, min, arith,
}
use native.Mathlib.Decide.{ℕ_discrete}
use open_evcharger.Ui.Buzzer.{
  Buzzer, Pattern, silent, boot_fail, fault_non_gfci, fault_gfci, oneshot, number, sounds, is_over,
  buzzer_set_pattern, buzzer_set_oneshot, buzzer_tick,
}

-- The patterns that go on until they are replaced.
unfoldable pub is_alarm : Pattern → Bool
is_alarm boot_fail = true
is_alarm fault_non_gfci = true
is_alarm fault_gfci = true
is_alarm _ = false

-- The patterns whose beeps are over half a second after their first tick, given a one-shot within its cap.
over_by_cap :
    (p : Pattern) (ms dt : ℕ)
    → is_alarm p ≡ false
    → p ≢ silent
    → ms ≤ 500
    → 500 ≤ dt
    → (is_over p ms dt ≡ true) × (sounds p ms dt ≡ false)
unfolding is_alarm is_over sounds
over_by_cap silent ms dt calm other cap late = absurd (other refl)
over_by_cap p ms dt calm other cap late = ground arith

-- The length of a one-shot is within its cap, after every call.
pub oneshot_capped :
    (z : Buzzer)
    → z.oneshot_ms ≤ 500
    → (p : Pattern) (ms t : ℕ)
    → ((buzzer_set_pattern z p).oneshot_ms ≤ 500)
      × ((buzzer_set_oneshot z ms).oneshot_ms ≤ 500)
      × ((buzzer_tick z t).oneshot_ms ≤ 500)
unfolding buzzer_set_pattern buzzer_set_oneshot buzzer_tick
oneshot_capped z cap p ms t = (ground arith, ground arith, ground arith)

silent-number : (p : Pattern) → number p ≡ 0 → p ≡ silent
silent-number silent h = refl
silent-number p h = absurd (omega (arith, h))

-- A tick of a pattern that began at `start`.
tick-at :
    (z : Buzzer) (t : ℕ)
    → number z.pattern ≢ 0
    → z.start_ms ≢ 0
    → z.start_ms ≤ t
    → t < 2 ^ 32
    → let dt = t - z.start_ms in
      buzzer_tick z t ≡ record z {
        pattern = if is_over z.pattern z.oneshot_ms dt then silent else z.pattern;
        pin = sounds z.pattern z.oneshot_ms dt;
      }
unfolding buzzer_tick
tick-at z t other started later small =
    let e : (t + 2 ^ 32 - z.start_ms) % 2 ^ 32 ≡ t - z.start_ms = omega (arith, later, small) in
    let s : (z.start_ms == 0) ≡ false = ground (arith, started) in
    let n : (number z.pattern == 0) ≡ false = ground (arith, other) in rw (n, s, e) refl

-- The first tick of a one-shot.
set_first :
    (z : Buzzer) (ms t0 : ℕ)
    → 0 < ms
    → buzzer_tick (buzzer_set_oneshot z ms) t0 ≡ record {
      pattern = oneshot;
      start_ms = t0;
      oneshot_ms = min ms 500;
      pin = ltb 0 (min ms 500);
    }
unfolding buzzer_set_oneshot buzzer_tick sounds is_over
set_first z ms t0 some_ms =
    let capped : (if ltb 500 ms then 500 else ms) ≡ min ms 500 = ground arith in
    let nz : (ms == 0) ≡ false = ground (arith, some_ms) in
    let dt : (t0 + 2 ^ 32 - t0) % 2 ^ 32 ≡ 0 = omega arith in
    let going : leb (min ms 500) 0 ≡ false = ground (arith, some_ms) in
    rw (nz, capped) (rw (dt, going) refl)

-- A one-shot of `ms` milliseconds, at least one, whose first tick is at a time `t0` other than 0: at a tick at `t`, at or
-- after it and before the clock wraps, the buzzer sounds exactly while fewer than `ms` milliseconds have passed, or
-- 500 if that is less, and after that the pattern is silent.
pub oneshot-sounds :
    (z : Buzzer) (ms t0 t : ℕ)
    → 0 < ms
    → 0 < t0
    → t0 ≤ t
    → t < 2 ^ 32
    → let y = buzzer_tick (buzzer_tick (buzzer_set_oneshot z ms) t0) t in
      (y.pin ≡ ltb (t - t0) (min ms 500)) × (y.pin ≡ false → y.pattern ≡ silent)
unfolding buzzer_set_oneshot sounds is_over
oneshot-sounds z ms t0 t some_ms started later small =
    let c = min ms 500 in
    let d = t - t0 in
    let z2 : Buzzer = record { pattern = oneshot; start_ms = t0; oneshot_ms = c; pin = ltb 0 c } in
    let e : buzzer_tick (buzzer_tick (buzzer_set_oneshot z ms) t0) t
        ≡ record z2 { pattern = if leb c d then silent else oneshot; pin = ltb d c } =
      ap (λ y. buzzer_tick y t) (set_first z ms t0 some_ms)
      ∙ tick-at z2 t (omega arith) (omega (arith, started)) later small in
    (
      ap (λ y. y.pin) e,
      λ h.
          ap (λ y. y.pattern) e
          ∙ (let over : leb c d ≡ true = ground (arith, sym (ap (λ y. y.pin) e) ∙ h) in
              rw over refl),
    )

tick-silent :
    (z : Buzzer) (t : ℕ) → number z.pattern ≡ 0 → buzzer_tick z t ≡ record z { pin = false }
unfolding buzzer_tick
tick-silent z t h = let n : (number z.pattern == 0) ≡ true = ground (arith, h) in rw n refl

alarm_goes_on : (p : Pattern) (ms dt : ℕ) → is_alarm p ≡ true → is_over p ms dt ≡ false
unfolding is_alarm is_over
alarm_goes_on silent ms dt h = absurd (ground (arith, h))
alarm_goes_on p ms dt h = ground arith

-- A pattern that is no alarm is silent half a second after its first tick, and an alarm stays.
pub tick-quiet :
    (z : Buzzer) (t : ℕ)
    → z.oneshot_ms ≤ 500
    → z.start_ms ≢ 0
    → z.start_ms + 500 ≤ t
    → t < 2 ^ 32
    → let y = buzzer_tick z t in
      (is_alarm z.pattern ≡ false → (y.pin ≡ false) × (y.pattern ≡ silent))
      × (is_alarm z.pattern ≡ true → y.pattern ≡ z.pattern)
tick-quiet z t cap started late small = elim (ℕ_discrete (number z.pattern) 0) [
  | yes none ↦
      let e = tick-silent z t none in
      let p = silent-number z.pattern none in
      (λ calm. (ap (λ y. y.pin) e, ap (λ y. y.pattern) e ∙ p), λ alarm. ap (λ y. y.pattern) e)
  | no other ↦
      let d = t - z.start_ms in
      let e = tick-at z t other started (omega (arith, late)) small in
      (
        λ calm.
            let ends =
              over_by_cap z.pattern z.oneshot_ms d calm (λ h. other (ap number h)) cap
                (omega (arith, late)) in
            (
              ap (λ y. y.pin) e ∙ ends.1,
              ap (λ y. y.pattern) e ∙ ap (λ b. if b then silent else z.pattern) ends.0,
            ),
        λ alarm.
            ap (λ y. y.pattern) e
            ∙ ap (λ b. if b then silent else z.pattern)
                (alarm_goes_on z.pattern z.oneshot_ms d alarm),
      )
]
