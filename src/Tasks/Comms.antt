-- ===== src/Tasks/Comms.antt =====
-- The comms task, src/tasks/comms_task.c: the commands of the radio module and the reassembly of its frames.
pub mod Drain
pub mod Posted
pub mod Stream
use open_evcharger.Prelude.{
  ℕ, zero, suc, ◌+◌, ◌-◌, ◌*◌, List, [], ◌∷◌, ◌++◌, Bool, true, false, ◌||◌, if◌then◌else◌, ◌==◌,
  ltb, leb, length, get_or, drop, take,
}
use open_evcharger.Proto.Tlv.{tlv_parse, Parsed, need_more, resync, frame}
use open_evcharger.Persist.Bytes.{le32_load}
use open_evcharger.Safety.State.{
  Request, clear_fault, user_pause, user_resume, rfid_learn_arm, publish_rfid_config,
  simulate_replug, run_gfci_cal_test, publish_gfci_policy,
}
use open_evcharger.Tasks.Ota.{OtaReq, begin, chunk, commit, abort}

-- The requests to the persist task that commands make: `persist_post_*`. A word of 16 or 32 bits with a sign
-- is its bits.
pub data PersistReq : Type 0 where
  boot_config_amps : ℕ → PersistReq
  get_fault_log : (max_count seq : ℕ) → PersistReq
  get_lifetime_kwh : (seq : ℕ) → PersistReq
  calibration : (anchor_raw slope_num slope_den : ℕ) → PersistReq
  bl0939_cal : (v ia ib pa freq_const : ℕ) → PersistReq
  authlist_remove : ℕ → PersistReq
  authlist_clear : PersistReq
  authlist_get_list : (seq : ℕ) → PersistReq
  require_rfid_auth : ℕ → PersistReq
  gfci_policy : ℕ → PersistReq
  ota : OtaReq → (seq : ℕ) → PersistReq

-- What a command makes the task do: replies, calls of other modules, and posts.
pub data Effect : Type 0 where
  ping_ack : (seq : ℕ) → Effect
  state_report : (seq : ℕ) → Effect
  build_info : (seq : ℕ) → Effect
  device_id : (seq : ℕ) → Effect
  led_override_set : (mode r g b : ℕ) → Effect
  buzzer_set_oneshot : ℕ → Effect
  safety : Request → Effect
  persist : PersistReq → Effect
  system_time_set : ℕ → Effect
  rtc_store_unix : ℕ → Effect
  publish_time : (seq : ℕ) → Effect
  restart : Effect

-- The little-endian word of 16 bits at `i`.
unfoldable pub le16 : List ℕ → ℕ → ℕ
le16 p i = get_or p i 0 + get_or p (i + 1) 0 * 256

unfoldable pub handle_set_led_override : List ℕ → List Effect
handle_set_led_override p =
    if ltb (length p) 4
    then []
    else led_override_set (get_or p 0 0) (get_or p 1 0) (get_or p 2 0) (get_or p 3 0) ∷ []

unfoldable pub handle_buzzer_beep : List ℕ → List Effect
handle_buzzer_beep p = if ltb (length p) 2 then [] else buzzer_set_oneshot (le16 p 0) ∷ []

-- `cached` is `boot_config_advertised_amps()`.
unfoldable pub handle_set_advertised_amps : ℕ → List ℕ → List Effect
handle_set_advertised_amps cached p =
    let asked = get_or p 0 0 in
    let amps = if ltb 48 asked then 48 else asked in
    if ltb (length p) 1
    then []
    else if amps == cached
    then []
    else persist (boot_config_amps amps) ∷ []

unfoldable pub handle_clear_fault : List ℕ → List Effect
handle_clear_fault p = if ltb (length p) 4 then [] else safety (clear_fault (le32_load p 0)) ∷ []

unfoldable pub handle_get_fault_log : List ℕ → ℕ → List Effect
handle_get_fault_log p seq =
    let max_count = if leb 1 (length p) then get_or p 0 0 else 16 in
    persist (get_fault_log max_count seq) ∷ []

-- The slope must not divide by zero; the anchor is a reading of a 12-bit converter, so it is not negative.
unfoldable pub handle_write_calibration : List ℕ → List Effect
handle_write_calibration p =
    let anchor = le16 p 0 in
    let snum = le16 p 2 in
    let sden = le16 p 4 in
    if ltb (length p) 6
    then []
    else if sden == 0
    then []
    else if leb 0x8000 anchor || ltb 4095 anchor
    then []
    else persist (calibration anchor snum sden) ∷ []

unfoldable pub handle_write_bl0939_cal : List ℕ → List Effect
handle_write_bl0939_cal p =
    let fc = if leb 12 (length p) then le32_load p 8 else 0 in
    if ltb (length p) 8
    then []
    else persist (bl0939_cal (le16 p 0) (le16 p 2) (le16 p 4) (le16 p 6) fc) ∷ []

unfoldable pub handle_rfid_remove_uid : List ℕ → List Effect
handle_rfid_remove_uid p =
    if ltb (length p) 4 then [] else persist (authlist_remove (le32_load p 0)) ∷ []

-- `persist_post_require_rfid_auth`: the flag that it posts is 0 or 1.
unfoldable pub persist_post_require_rfid_auth : ℕ → Effect
persist_post_require_rfid_auth enable = persist (require_rfid_auth (if enable == 0 then 0 else 1))

unfoldable pub handle_set_require_rfid_auth : List ℕ → List Effect
handle_set_require_rfid_auth p =
    if ltb (length p) 1 then [] else persist_post_require_rfid_auth (get_or p 0 0) ∷ []

unfoldable pub handle_ota_begin : List ℕ → ℕ → List Effect
handle_ota_begin p seq =
    if ltb (length p) 12
    then []
    else persist (ota (begin (le32_load p 0) (le32_load p 4) (le32_load p 8)) seq) ∷ []

unfoldable pub handle_ota_chunk : List ℕ → ℕ → List Effect
handle_ota_chunk p seq =
    if ltb (length p) 8 || ltb (8 + 48) (length p)
    then []
    else if length p - 8 == 0
    then []
    else persist (ota (chunk (le32_load p 0) (le32_load p 4) (drop 8 p)) seq) ∷ []

unfoldable pub handle_ota_commit : List ℕ → ℕ → List Effect
handle_ota_commit p seq =
    if ltb (length p) 4 then [] else persist (ota (commit (le32_load p 0)) seq) ∷ []

unfoldable pub handle_ota_abort : List ℕ → ℕ → List Effect
handle_ota_abort p seq =
    if ltb (length p) 4 then [] else persist (ota (abort (le32_load p 0)) seq) ∷ []

unfoldable pub handle_set_time : List ℕ → ℕ → List Effect
handle_set_time p seq =
    let unix_s = le32_load p 0 in
    let stored = if unix_s == 0 then [] else rtc_store_unix unix_s ∷ [] in
    if ltb (length p) 4 then [] else system_time_set unix_s ∷ (stored ++ (publish_time seq ∷ []))

unfoldable pub handle_request_stop : List ℕ → List Effect
handle_request_stop p = safety (user_pause (if leb 1 (length p) then get_or p 0 0 else 0)) ∷ []

unfoldable pub handle_set_gfci_policy : List ℕ → List Effect
handle_set_gfci_policy p =
    if ltb (length p) 1 then [] else persist (gfci_policy (get_or p 0 0)) ∷ []

-- The commands from 0x01 to 0x20; 0x1D has none.
unfoldable pub dispatch : ℕ → (cmd seq : ℕ) → List ℕ → List Effect
dispatch cached cmd seq p =
    if cmd == 0x01
    then ping_ack seq ∷ []
    else if cmd == 0x02
    then state_report seq ∷ []
    else if cmd == 0x0C
    then build_info seq ∷ []
    else if cmd == 0x0D
    then device_id seq ∷ []
    else if cmd == 0x0A
    then handle_set_led_override p
    else if cmd == 0x0B
    then handle_buzzer_beep p
    else if cmd == 0x03
    then handle_set_advertised_amps cached p
    else if cmd == 0x06
    then handle_clear_fault p
    else if cmd == 0x07
    then handle_get_fault_log p seq
    else if cmd == 0x08
    then persist (get_lifetime_kwh seq) ∷ []
    else if cmd == 0x09
    then handle_write_calibration p
    else if cmd == 0x0E
    then handle_write_bl0939_cal p
    else if cmd == 0x04
    then handle_request_stop p
    else if cmd == 0x05
    then safety user_resume ∷ []
    else if cmd == 0x0F
    then safety rfid_learn_arm ∷ []
    else if cmd == 0x10
    then handle_rfid_remove_uid p
    else if cmd == 0x11
    then persist authlist_clear ∷ []
    else if cmd == 0x12
    then persist (authlist_get_list seq) ∷ []
    else if cmd == 0x13
    then handle_set_require_rfid_auth p
    else if cmd == 0x14
    then safety publish_rfid_config ∷ []
    else if cmd == 0x15
    then handle_ota_begin p seq
    else if cmd == 0x16
    then handle_ota_chunk p seq
    else if cmd == 0x17
    then handle_ota_commit p seq
    else if cmd == 0x18
    then handle_ota_abort p seq
    else if cmd == 0x19
    then handle_set_time p seq
    else if cmd == 0x1A
    then publish_time seq ∷ []
    else if cmd == 0x1B
    then restart ∷ []
    else if cmd == 0x1C
    then safety simulate_replug ∷ []
    else if cmd == 0x1E
    then safety run_gfci_cal_test ∷ []
    else if cmd == 0x1F
    then handle_set_gfci_policy p
    else if cmd == 0x20
    then safety publish_gfci_policy ∷ []
    else []

-- The frames that the accumulator holds, in order, and what is left of it. Each turn of the loop takes a
-- frame or drops a byte.
unfoldable pub serve : ℕ → List ℕ → List (ℕ × ℕ × List ℕ) × List ℕ
serve zero accum = ([], accum)
serve (suc fuel) accum = elim (tlv_parse accum) [
  | need_more ↦ ([], accum)
  | resync ↦ serve fuel (drop 1 accum)
  | frame cmd seq payload consumed ↦
      let rest = serve fuel (drop consumed accum) in ((cmd, seq, payload) ∷ rest.0, rest.1)
]

-- One turn of the task: what the ring gave, at most what the accumulator of 64 bytes has room for.
unfoldable pub receive : List ℕ → List ℕ → List (ℕ × ℕ × List ℕ) × List ℕ
receive accum [] = ([], accum)
receive accum (x ∷ got) =
    let s = serve 64 (accum ++ (x ∷ got)) in if length s.1 == 64 then (s.0, []) else s

-- The turns of the task one after the other.
unfoldable pub receive_all : List ℕ → List (List ℕ) → List (ℕ × ℕ × List ℕ) × List ℕ
receive_all accum [] = ([], accum)
receive_all accum (got ∷ gots) =
    let r = receive accum got in let rest = receive_all r.1 gots in (r.0 ++ rest.0, rest.1)
