-- ===== src/Core/SystemTime.antt =====
-- src/core/system_time.c: the software wall clock, over 32-bit tick and second counters.
use open_evcharger.Prelude.{
  ℕ, ◌+◌, ◌-◌, ◌/◌, ◌%◌, ◌^◌, ◌<◌, ◌≡◌, ◌≢◌, Bool, true, false, if◌then◌else◌, ◌==◌, arith,
}

-- The file's static variables.
pub record SystemTime : Type 0 where
  pub base_unix_s : ℕ  -- uint32_t
  pub base_tick_ms : ℕ  -- uint32_t
  pub is_set : Bool

abbrev pub unset : SystemTime
unset = record { base_unix_s = 0; base_tick_ms = 0; is_set = false }

-- `system_time_set`
unfoldable pub set : ℕ → ℕ → SystemTime
set unix_seconds tick_ms_now =
    if unix_seconds == 0
    then unset
    else record { base_unix_s = unix_seconds; base_tick_ms = tick_ms_now; is_set = true }

-- `system_time_now`
unfoldable pub now : SystemTime → ℕ → ℕ
now t tick_ms_now =
    let delta_ms = (tick_ms_now + 2 ^ 32 - t.base_tick_ms) % 2 ^ 32 in
    if t.is_set then (t.base_unix_s + delta_ms / 1000) % 2 ^ 32 else 0

-- The clock reads the seconds that were set plus the whole seconds gone by since, also when the
-- tick counter has wrapped round in between, for up to 2^32 - 1 ms and a sum below 2^32 s.
pub now-set :
    (unix tick elapsed : ℕ)
    → unix ≢ 0
    → tick < 2 ^ 32
    → elapsed < 2 ^ 32
    → unix + elapsed / 1000 < 2 ^ 32
    → now (set unix tick) ((tick + elapsed) % 2 ^ 32) ≡ unix + elapsed / 1000
unfolding set now
now-set unix tick elapsed u t e s = ground arith
