-- ===== src/Persist/CrashState/Image.antt =====
-- `struct crash_state` of src/persist/crash_state.h in its 32 bytes.
use open_evcharger.Prelude.{ℕ, ◌≡◌, ◌≤◌, refl, ap, ◌∙◌, length, get_or, arith}
use open_evcharger.Persist.Bytes.{zeros}
use open_evcharger.Persist.Slot.{Faithful}
use open_evcharger.Persist.Pingpong.{stamp}
use open_evcharger.Persist.Pingpong.Image.{get_or-stamp_front, get_or-stamp}
use open_evcharger.Persist.CrashState.{CrashRecord, crash_encode, crash_layout}

-- The count is a byte.
unfoldable pub CrashFits : CrashRecord → Type 0
CrashFits r = r.fast_restart_count ≤ 0xFF

pub length-crash_encode : (r : CrashRecord) → length (crash_encode r) ≡ 32
unfolding crash_encode zeros
length-crash_encode r = refl

module _ (r : CrashRecord) (counter : ℕ) where
  version_kept : get_or (stamp 32 (crash_encode r) counter) 0 0 ≡ r.version
  unfolding crash_encode
  version_kept =
      get_or-stamp_front 32 (crash_encode r) counter (length-crash_encode r) (omega arith) 0
        (omega arith)

  count_kept : get_or (stamp 32 (crash_encode r) counter) 8 0 ≡ r.fast_restart_count
  unfolding crash_encode zeros
  count_kept =
      get_or-stamp 32 (crash_encode r) counter (length-crash_encode r) (omega arith) 8 (omega arith)
        (omega arith)

crash_record : ℕ → ℕ → CrashRecord
crash_record version count = record { version = version; fast_restart_count = count }

both_kept :
    (r : CrashRecord) (counter : ℕ) → crash_layout.decode (stamp 32 (crash_encode r) counter) ≡ r
unfolding crash_record
both_kept r counter =
    ap (λ v. crash_record v (get_or (stamp 32 (crash_encode r) counter) 8 0))
      (version_kept r counter)
    ∙ ap (crash_record r.version) (count_kept r counter)

pub crash_layout-Faithful : Faithful crash_layout CrashFits
crash_layout-Faithful = record {
  length-encode = λ r fits. length-crash_encode r;
  decode_stamp = λ r counter fits. both_kept r counter;
}
