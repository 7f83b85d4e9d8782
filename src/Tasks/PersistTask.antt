-- ===== src/Tasks/PersistTask.antt =====
-- The persist task, src/tasks/persist_task.c: each request from its queue, over all that is stored.
pub mod Regions
pub mod Apart
pub mod Kept
pub mod Overlap
pub mod Queue
use open_evcharger.Prelude.{ℕ, List, [], ◌∷◌, Bool, true, false, if◌then◌else◌, map}
use open_evcharger.Persist.Flash.{Flash}
use open_evcharger.Persist.Slot.{Store, pingpong}
use open_evcharger.Persist.BootConfig.{
  BootConfig, config_layout, boot_config_set_advertised_amps, boot_config_set_require_rfid_auth,
  boot_config_set_gfci_fault_policy,
}
use open_evcharger.Persist.CrashState.{
  CrashState, CrashRecord, crash_layout, crash_state_reset_alive,
}
use open_evcharger.Persist.Authlist.{
  Authlist, authlist_layout, rfid_authlist_add, rfid_authlist_remove, rfid_authlist_clear,
}
use open_evcharger.Persist.Calibration.{
  Calibration, CalState, cal_layout, calibration_set_cp, calibration_set_bl0939,
}
use open_evcharger.Persist.Log.{Log, event_log_append, session_log_append}
use open_evcharger.Safety.State.{Request, publish_rfid_config, publish_gfci_policy}
use open_evcharger.Tasks.Ota.{Ota, OtaSession, OtaEvent, OtaReq}
use open_evcharger.Tasks.Ota
use open_evcharger.Tasks.Listing.{
  ListEvent, handle_rfid_get_list, handle_get_fault_log, handle_get_lifetime_kwh,
}
use open_evcharger.Tasks.Comms.{
  PersistReq, boot_config_amps, get_fault_log, get_lifetime_kwh, calibration, bl0939_cal,
  authlist_remove, authlist_clear, authlist_get_list, require_rfid_auth, gfci_policy, ota,
}

-- `struct persist_req`: the records that the supervisor posts, its other requests, and those of commands.
pub data Queued : Type 0 where
  event : List ℕ → Queued
  session : List ℕ → Queued
  crash_state_reset : Queued
  authlist_add : ℕ → Queued
  command : PersistReq → Queued

-- What a request leads to besides: frames with their sequence number, and requests to the supervisor.
pub data Sent : Type 0 where
  listed : ListEvent → (seq : ℕ) → Sent
  updated : OtaEvent → (seq : ℕ) → Sent
  posted : Request → Sent

-- The variables of the modules that the task calls, and the flash.
pub record Stored (M : Type 0) : Type 0 where
  pub flash : M
  pub s_ota : OtaSession
  pub cfg : BootConfig
  pub crash : CrashState
  pub cards : Authlist
  pub cal : CalState
  pub events : Log
  pub sessions : Log

-- The records with two slots, each at its addresses.
module _ {M : Type 0} (F : Flash M) where
  abbrev pub config_slots : Store M BootConfig
  config_slots = pingpong F 0x000000 0x001000 config_layout

  abbrev pub cal_slots : Store M Calibration
  cal_slots = pingpong F 0x002000 0x003000 cal_layout

  abbrev pub card_slots : Store M Authlist
  card_slots = pingpong F 0x005000 0x006000 authlist_layout

  abbrev pub crash_slots : Store M CrashRecord
  crash_slots = pingpong F 0x04D000 0x04E000 crash_layout

  -- The branches of `persist_task_run` for the requests that commands make.
  unfoldable pub handle_command : PersistReq → Stored M → List Sent × Stored M
  handle_command (boot_config_amps amps) s =
      let r = boot_config_set_advertised_amps config_slots s.cfg s.flash amps in
      ([], record s { cfg = r.1; flash = r.2 })
  handle_command (get_fault_log max_count seq) s =
      (map (λ e. listed e seq) (handle_get_fault_log F s.events s.flash max_count), s)
  handle_command (get_lifetime_kwh seq) s =
      (map (λ e. listed e seq) (handle_get_lifetime_kwh F s.flash), s)
  handle_command (calibration anchor_raw slope_num slope_den) s =
      let r = calibration_set_cp cal_slots s.cal s.flash anchor_raw slope_num slope_den in
      ([], record s { cal = r.1; flash = r.2 })
  handle_command (bl0939_cal v ia ib pa freq_const) s =
      let r = calibration_set_bl0939 cal_slots s.cal s.flash v ia ib pa freq_const in
      ([], record s { cal = r.1; flash = r.2 })
  handle_command (authlist_remove uid) s =
      let r = rfid_authlist_remove card_slots s.cards s.flash uid in
      ([], record s { cards = r.1; flash = r.2 })
  handle_command authlist_clear s =
      let r = rfid_authlist_clear card_slots s.cards s.flash in
      ([], record s { cards = r.1; flash = r.2 })
  handle_command (authlist_get_list seq) s =
      (map (λ e. listed e seq) (handle_rfid_get_list s.cards), s)
  handle_command (require_rfid_auth enable) s =
      let r = boot_config_set_require_rfid_auth config_slots s.cfg s.flash enable in
      (if r.0 then posted publish_rfid_config ∷ [] else [], record s { cfg = r.1; flash = r.2 })
  handle_command (gfci_policy policy) s =
      let r = boot_config_set_gfci_fault_policy config_slots s.cfg s.flash policy in
      (posted publish_gfci_policy ∷ [], record s { cfg = r.1; flash = r.2 })
  handle_command (ota q seq) s =
      let o : Ota M = record { s_ota = s.s_ota; cfg = s.cfg; flash = s.flash } in
      let r = Ota.dispatch F config_slots q o in
      (updated r.0 seq ∷ [], record s { s_ota = r.1.s_ota; cfg = r.1.cfg; flash = r.1.flash })

  unfoldable pub handle : Queued → Stored M → List Sent × Stored M
  handle (event rec) s =
      let r = event_log_append F s.events s.flash rec in
      ([], record s { events = r.1; flash = r.2 })
  handle (session rec) s =
      let r = session_log_append F s.sessions s.flash rec in
      ([], record s { sessions = r.1; flash = r.2 })
  handle crash_state_reset s =
      let r = crash_state_reset_alive crash_slots s.crash s.flash in
      ([], record s { crash = r.1; flash = r.2 })
  handle (authlist_add uid) s =
      let r = rfid_authlist_add card_slots s.cards s.flash uid in
      ([], record s { cards = r.1; flash = r.2 })
  handle (command q) s = handle_command q s
