-- ===== src/Tasks/Comms/Posted.antt =====
-- What the commands of src/tasks/comms_task.c post to the persist task.
use open_evcharger.Prelude.{
  ℕ, ◌≢◌, ◌≤◌, List, [], ◌∷◌, Bool, if◌then◌else◌, ◌==◌, Bool-cases, inl, inr, length, length-drop,
  arith,
}
use open_evcharger.Tasks.Ota.{chunk}
use open_evcharger.Tasks.Comms.{
  PersistReq, boot_config_amps, calibration, require_rfid_auth, ota, Effect, persist,
  handle_set_led_override, handle_buzzer_beep, handle_set_advertised_amps, handle_clear_fault,
  handle_get_fault_log, handle_write_calibration, handle_write_bl0939_cal, handle_rfid_remove_uid,
  handle_set_require_rfid_auth, persist_post_require_rfid_auth, handle_ota_begin, handle_ota_chunk,
  handle_ota_commit, handle_ota_abort, handle_set_time, handle_request_stop, handle_set_gfci_policy,
  dispatch,
}

-- What the persist task may rely on: at most 48 A, a calibration that does not divide by zero with an anchor of
-- 12 bits, and 1 to 48 bytes of data.
unfoldable pub Fit : PersistReq → Type 0
Fit (boot_config_amps amps) = amps ≤ 48
Fit (calibration anchor num den) = (anchor ≤ 4095) × (den ≢ 0)
Fit (require_rfid_auth e) = e ≤ 1
Fit (ota (chunk session offset xs) seq) = (1 ≤ length xs) × (length xs ≤ 48)
Fit r = Unit {0}

unfoldable pub FitEffect : Effect → Type 0
FitEffect (persist r) = Fit r
FitEffect e = Unit {0}

unfoldable pub AllFit : List Effect → Type 0
AllFit [] = Unit {0}
AllFit (e ∷ es) = FitEffect e × AllFit es

amps-AllFit : (cached : ℕ) (p : List ℕ) → AllFit (handle_set_advertised_amps cached p)
unfolding AllFit FitEffect Fit handle_set_advertised_amps
amps-AllFit cached p = ground arith

cal-AllFit : (p : List ℕ) → AllFit (handle_write_calibration p)
unfolding AllFit FitEffect Fit handle_write_calibration
cal-AllFit p = ground arith

chunk-AllFit : (p : List ℕ) (seq : ℕ) → AllFit (handle_ota_chunk p seq)
unfolding AllFit FitEffect Fit handle_ota_chunk
chunk-AllFit p seq = ground (arith, length-drop 8 p)

time-AllFit : (p : List ℕ) (seq : ℕ) → AllFit (handle_set_time p seq)
unfolding AllFit FitEffect handle_set_time
time-AllFit p seq = ground arith

auth-AllFit : (p : List ℕ) → AllFit (handle_set_require_rfid_auth p)
unfolding AllFit FitEffect Fit handle_set_require_rfid_auth persist_post_require_rfid_auth
auth-AllFit p = ground arith

if-AllFit : (t : Bool) (xs ys : List Effect) → AllFit xs → AllFit ys → AllFit (if t then xs else ys)
if-AllFit t xs ys fit rest = elim (Bool-cases t) [ inl h ↦ rw h fit | inr h ↦ rw h rest ]

set_led_override-AllFit : (p : List ℕ) → AllFit (handle_set_led_override p)
unfolding AllFit FitEffect Fit handle_set_led_override
set_led_override-AllFit p = ground arith

buzzer_beep-AllFit : (p : List ℕ) → AllFit (handle_buzzer_beep p)
unfolding AllFit FitEffect Fit handle_buzzer_beep
buzzer_beep-AllFit p = ground arith

clear_fault-AllFit : (p : List ℕ) → AllFit (handle_clear_fault p)
unfolding AllFit FitEffect Fit handle_clear_fault
clear_fault-AllFit p = ground arith

get_fault_log-AllFit : (p : List ℕ) (seq : ℕ) → AllFit (handle_get_fault_log p seq)
unfolding AllFit FitEffect Fit handle_get_fault_log
get_fault_log-AllFit p seq = ground arith

write_bl0939_cal-AllFit : (p : List ℕ) → AllFit (handle_write_bl0939_cal p)
unfolding AllFit FitEffect Fit handle_write_bl0939_cal
write_bl0939_cal-AllFit p = ground arith

request_stop-AllFit : (p : List ℕ) → AllFit (handle_request_stop p)
unfolding AllFit FitEffect Fit handle_request_stop
request_stop-AllFit p = ground arith

rfid_remove_uid-AllFit : (p : List ℕ) → AllFit (handle_rfid_remove_uid p)
unfolding AllFit FitEffect Fit handle_rfid_remove_uid
rfid_remove_uid-AllFit p = ground arith

ota_begin-AllFit : (p : List ℕ) (seq : ℕ) → AllFit (handle_ota_begin p seq)
unfolding AllFit FitEffect Fit handle_ota_begin
ota_begin-AllFit p seq = ground arith

ota_commit-AllFit : (p : List ℕ) (seq : ℕ) → AllFit (handle_ota_commit p seq)
unfolding AllFit FitEffect Fit handle_ota_commit
ota_commit-AllFit p seq = ground arith

ota_abort-AllFit : (p : List ℕ) (seq : ℕ) → AllFit (handle_ota_abort p seq)
unfolding AllFit FitEffect Fit handle_ota_abort
ota_abort-AllFit p seq = ground arith

set_gfci_policy-AllFit : (p : List ℕ) → AllFit (handle_set_gfci_policy p)
unfolding AllFit FitEffect Fit handle_set_gfci_policy
set_gfci_policy-AllFit p = ground arith

-- Whatever frame comes, of any command and any payload, what is posted to the persist task keeps to what that
-- task relies on: an advertised current of at most 48 A, a calibration with a slope that does not divide by
-- zero and an anchor of 12 bits, a flag of 0 or 1, and 1 to 48 bytes of an image.
pub dispatch-AllFit : (cached cmd seq : ℕ) (p : List ℕ) → AllFit (dispatch cached cmd seq p)
unfolding dispatch AllFit FitEffect Fit
dispatch-AllFit cached cmd seq p =
    if-AllFit (cmd == 0x01) _ _ (tt, tt)
      (if-AllFit (cmd == 0x02) _ _ (tt, tt)
        (if-AllFit (cmd == 0x0C) _ _ (tt, tt)
          (if-AllFit (cmd == 0x0D) _ _ (tt, tt)
            (if-AllFit (cmd == 0x0A) _ _ (set_led_override-AllFit p) (
              if-AllFit (cmd == 0x0B) _ _ (buzzer_beep-AllFit p) (
                if-AllFit (cmd == 0x03) _ _ (amps-AllFit cached p) (
                  if-AllFit (cmd == 0x06) _ _ (clear_fault-AllFit p) (
                    if-AllFit (cmd == 0x07) _ _ (get_fault_log-AllFit p seq) (
                      if-AllFit (cmd == 0x08) _ _ (tt, tt)
                        (if-AllFit (cmd == 0x09) _ _ (cal-AllFit p) (
                          if-AllFit (cmd == 0x0E) _ _ (write_bl0939_cal-AllFit p) (
                            if-AllFit (cmd == 0x04) _ _ (request_stop-AllFit p) (
                              if-AllFit (cmd == 0x05) _ _ (tt, tt)
                                (if-AllFit (cmd == 0x0F) _ _ (tt, tt)
                                  (if-AllFit (cmd == 0x10) _ _ (rfid_remove_uid-AllFit p) (
                                    if-AllFit (cmd == 0x11) _ _ (tt, tt)
                                      (if-AllFit (cmd == 0x12) _ _ (tt, tt)
                                        (if-AllFit (cmd == 0x13) _ _ (auth-AllFit p) (
                                          if-AllFit (cmd == 0x14) _ _ (tt, tt)
                                            (if-AllFit (cmd == 0x15) _ _ (ota_begin-AllFit p seq) (
                                              if-AllFit (cmd == 0x16) _ _ (chunk-AllFit p seq) (
                                                if-AllFit (cmd == 0x17) _ _
                                                  (ota_commit-AllFit p seq)
                                                  (if-AllFit (cmd == 0x18) _ _
                                                    (ota_abort-AllFit p seq)
                                                    (if-AllFit (cmd == 0x19) _ _ (time-AllFit p seq)
                                                      (if-AllFit (cmd == 0x1A) _ _ (tt, tt)
                                                        (if-AllFit (cmd == 0x1B) _ _ (tt, tt)
                                                          (if-AllFit (cmd == 0x1C) _ _ (tt, tt)
                                                            (if-AllFit (cmd == 0x1E) _ _ (tt, tt)
                                                            (if-AllFit (cmd == 0x1F) _ _
                                                            (set_gfci_policy-AllFit p)
                                                            (if-AllFit (cmd == 0x20) _ _ (tt, tt)
                                                            (tt)))))))))))))))))))))))))))))))
