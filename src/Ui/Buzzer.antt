-- ===== src/Ui/Buzzer.antt =====
-- The buzzer of src/ui/buzzer.c. The level of its pin is part of the state.
pub mod Quiet
use open_evcharger.Prelude.{
  ℕ, ◌+◌, ◌-◌, ◌/◌, ◌%◌, ◌^◌, Bool, true, false, ◌&&◌, ◌||◌, if◌then◌else◌, ◌==◌, ltb, leb,
}

-- `buzzer_pattern_t`
pub data Pattern : Type 0 where
  silent : Pattern
  boot_pass : Pattern
  boot_fail : Pattern
  session_start : Pattern
  session_end : Pattern
  fault_non_gfci : Pattern
  fault_gfci : Pattern
  button : Pattern
  oneshot : Pattern

-- The C test `x == y` on two patterns, by their numbers.
abbrev pub number : Pattern → ℕ
number silent = 0
number boot_pass = 1
number boot_fail = 2
number session_start = 3
number session_end = 4
number fault_non_gfci = 5
number fault_gfci = 6
number button = 7
number oneshot = 8

-- `s_pattern`, `s_pattern_start_ms`, `s_oneshot_ms`, and the pin.
pub record Buzzer : Type 0 where
  pub pattern : Pattern
  pub start_ms : ℕ
  pub oneshot_ms : ℕ
  pub pin : Bool

unfoldable pub buzzer_set_pattern : Buzzer → Pattern → Buzzer
buzzer_set_pattern z p =
    if number p == number z.pattern then z else record z { pattern = p; start_ms = 0 }

unfoldable pub buzzer_set_oneshot : Buzzer → ℕ → Buzzer
buzzer_set_oneshot z ms =
    let capped = if ltb 500 ms then 500 else ms in
    if ms == 0
    then buzzer_set_pattern z silent
    else record z { pattern = oneshot; start_ms = 0; oneshot_ms = capped }

-- The level and the end of each pattern, `dt` milliseconds after its first tick.
unfoldable pub sounds : Pattern → (oneshot_ms dt : ℕ) → Bool
sounds silent ms dt = false
sounds boot_pass ms dt = ltb dt 100
sounds boot_fail ms dt =
    let cyc = dt % 2000 in
    ltb cyc 100 || ((leb 200 cyc && ltb cyc 300) || (leb 400 cyc && ltb cyc 500))
sounds session_start ms dt = ltb dt 200
sounds session_end ms dt = ltb dt 100 || (leb 200 dt && ltb dt 300)
sounds fault_non_gfci ms dt = dt / 1000 % 2 == 0
sounds fault_gfci ms dt = ltb dt 5000 || (dt - 5000) / 1000 % 2 == 0
sounds button ms dt = ltb dt 30
sounds oneshot ms dt = ltb dt ms

unfoldable pub is_over : Pattern → (oneshot_ms dt : ℕ) → Bool
is_over silent ms dt = false
is_over boot_pass ms dt = leb 200 dt
is_over boot_fail ms dt = false
is_over session_start ms dt = leb 300 dt
is_over session_end ms dt = leb 400 dt
is_over fault_non_gfci ms dt = false
is_over fault_gfci ms dt = false
is_over button ms dt = leb 50 dt
is_over oneshot ms dt = leb ms dt

unfoldable pub buzzer_tick : Buzzer → ℕ → Buzzer
buzzer_tick z now_ms =
    let start = if z.start_ms == 0 then now_ms else z.start_ms in
    let dt = (now_ms + 2 ^ 32 - start) % 2 ^ 32 in
    let pattern = if is_over z.pattern z.oneshot_ms dt then silent else z.pattern in
    if number z.pattern == 0
    then record z { pin = false }
    else record z { pattern = pattern; start_ms = start; pin = sounds z.pattern z.oneshot_ms dt }
