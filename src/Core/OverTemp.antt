-- ===== src/Core/OverTemp.antt =====
-- src/core/over_temp.h: the over-temperature detector.
pub mod Hysteresis
use open_evcharger.Prelude.{ℕ, ◌+◌, Bool, true, false, not, ◌&&◌, if◌then◌else◌, ltb, leb}

abbrev pub trip_raw : ℕ
trip_raw = 396

abbrev pub clear_raw : ℕ
clear_raw = 525

abbrev pub guard_lo : ℕ
guard_lo = 300

abbrev pub guard_hi : ℕ
guard_hi = 3990

abbrev pub persist_ticks : ℕ
persist_ticks = 5

-- `over_temp_ctx_t`
pub record OverTempCtx : Type 0 where
  pub trip_streak : ℕ  -- unsigned
  pub fault_active : Bool

-- `over_temp_action_t`
pub record OverTempAction : Type 0 where
  pub trip : Bool
  pub clear : Bool

abbrev pub idle : OverTempAction
idle = record { trip = false; clear = false }

unfoldable pub populated : ℕ → Bool
populated raw = ltb guard_lo raw && ltb raw guard_hi

-- `if (p && raw < hottest) hottest = raw`
abbrev pub hotter : Bool → ℕ → ℕ → ℕ
hotter p raw hottest = if p && ltb raw hottest then raw else hottest

-- The tail of the step, once some channel is populated and the hottest reading is known.
unfoldable pub decide : OverTempCtx → ℕ → OverTempCtx × OverTempAction
decide ctx hottest_raw =
    let streak =
      (if ltb ctx.trip_streak persist_ticks then ctx.trip_streak + 1 else ctx.trip_streak) in
    if not ctx.fault_active && leb hottest_raw trip_raw
    then (if leb persist_ticks streak
        then (record { trip_streak = streak; fault_active = true }, record idle { trip = true })
        else (record ctx { trip_streak = streak }, idle))
    else if ctx.fault_active && leb clear_raw hottest_raw
    then (record { trip_streak = 0; fault_active = false }, record idle { clear = true })
    else (record ctx { trip_streak = 0 }, idle)

-- A channel counts if it is fitted and its reading is inside the guard band.
unfoldable pub step : OverTempCtx → ℕ → ℕ → Bool → Bool → OverTempCtx × OverTempAction
unfolding populated decide
step ctx ntc1_raw ntc2_raw ntc1_present ntc2_present =
    let p1 = ntc1_present && populated ntc1_raw in
    let p2 = ntc2_present && populated ntc2_raw in
    if not p1 && not p2
    then (record ctx { trip_streak = 0 }, idle)
    else decide ctx (hotter p2 ntc2_raw (hotter p1 ntc1_raw 65535))
