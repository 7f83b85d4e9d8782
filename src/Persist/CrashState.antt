-- ===== src/Persist/CrashState.antt =====
-- The crash-loop counter of src/persist/crash_state.c.
pub mod Image
pub mod Streak
use open_evcharger.Prelude.{
  ℕ, ◌+◌, ◌≤◌, List, [], ◌∷◌, ◌++◌, Bool, true, false, ◌&&◌, not, Option, none, some, if◌then◌else◌,
  ◌==◌, ltb, leb, get_or,
}
use open_evcharger.Persist.Bytes.{zeros}
use open_evcharger.Persist.Slot.{Store, Layout}

-- src/hal/reset_cause.h.
pub data ResetCause : Type 0 where
  unknown : ResetCause
  power_on : ResetCause
  pin : ResetCause
  software : ResetCause
  watchdog : ResetCause
  low_power : ResetCause

-- The test of `read_and_clear_reset_was_crash`.
unfoldable pub was_crash : ResetCause → Bool
was_crash watchdog = true
was_crash low_power = true
was_crash _ = false

-- `struct crash_state`, without the counter and the checksum that the two-slot store manages.
pub record CrashRecord : Type 0 where
  pub version : ℕ
  pub fast_restart_count : ℕ

-- The file's variables `s_cs` and `s_safe_fail`.
pub record CrashState : Type 0 where
  pub cs : CrashRecord
  pub safe_fail : Bool

unfoldable pub crash_encode : CrashRecord → List ℕ
crash_encode r = r.version ∷ (zeros 7 ++ (r.fast_restart_count ∷ zeros 23))

abbrev pub crash_layout : Layout CrashRecord
crash_layout = record {
  size = 32;
  encode = crash_encode;
  decode = λ p. record { version = get_or p 0 0; fast_restart_count = get_or p 8 0 };
}

-- What happens to the charger: it boots for a reason, or has been up for a minute.
pub data Event : Type 0 where
  boot : ResetCause → Event
  alive : Event

-- The count behind a boot.
unfoldable pub bump : ResetCause → ℕ → ℕ
bump cause count = if was_crash cause then (if ltb count 0xFF then count + 1 else count) else 0

module _ {M : Type 0} (S : Store M CrashRecord) where
  -- The record that the slots hold, or the one written if none is valid.
  unfoldable pub crash_load : M → CrashRecord
  crash_load m = elim (S.load m) [
    | none ↦ record { version = 1; fast_restart_count = 0 }
    | some r ↦ r
  ]

  -- The first component tells whether the call returned 0.
  unfoldable pub crash_state_boot_increment : M → ResetCause → Bool × CrashState × M
  crash_state_boot_increment m cause =
      let count = bump cause ((crash_load m).fast_restart_count) in
      let cs : CrashRecord = record { version = 1; fast_restart_count = count } in
      let s = S.store m cs in (s.0, record { cs = cs; safe_fail = leb 5 count }, s.1)

  unfoldable pub crash_state_reset_alive : CrashState → M → Bool × CrashState × M
  crash_state_reset_alive st m =
      let cs : CrashRecord = record { version = 1; fast_restart_count = 0 } in
      let s = S.store m cs in
      if st.cs.fast_restart_count == 0 && not st.safe_fail
      then (true, st, m)
      else if s.0
      then (true, record { cs = cs; safe_fail = false }, s.1)
      else (false, record { cs = cs; safe_fail = st.safe_fail }, s.1)

  unfoldable pub handle : Event → CrashState → M → Bool × CrashState × M
  handle (boot cause) st m = crash_state_boot_increment m cause
  handle alive st m = crash_state_reset_alive st m

  unfoldable pub run : List Event → CrashState → M → CrashState × M
  run [] st m = (st, m)
  run (e ∷ es) st m = let h = handle e st m in run es h.1 h.2
