-- ===== src/Tasks/PersistTask/Apart.antt =====
-- The requests of src/tasks/persist_task.c and the records that they are not about.
use open_evcharger.Prelude.{
  ℕ, ◌+◌, ◌^◌, ◌≡◌, ◌<◌, ◌&&◌, ◌||◌, ◌==◌, ltb, Bool-cases, inl, inr, length,
}
use open_evcharger.Persist.Flash.{Flash, Chip}
use open_evcharger.Persist.BootConfig.{
  set_amps, set_rfid_auth, set_gfci_policy, set_pending_ota, change,
}
use open_evcharger.Persist.Authlist.Written.{Wf}
use open_evcharger.Persist.Calibration.Slope.{cal_call, set_cp, set_bl0939}
use open_evcharger.Persist.Log.{event_layout, session_layout, total_records}
use open_evcharger.Persist.OtaStage.{
  ota_stage_begin, ota_stage_write, ota_stage_compute_crc, ota_stage_mark_pending, region_size,
}
use open_evcharger.Persist.Footprint.{Keeps, Keeps-refl, log_append-Keeps}
use open_evcharger.Persist.Footprint.Stage.{ota_stage_begin-Keeps, ota_stage_write-Keeps}
use open_evcharger.Tasks.Ota.{
  Ota, OtaReq, begin, chunk, commit, abort, handle_ota_begin, handle_ota_chunk, handle_ota_commit,
  handle_ota_abort, ota_in_session,
}
use open_evcharger.Tasks.Ota
use open_evcharger.Tasks.Ota.Cases.{done-cases}
use open_evcharger.Tasks.Comms.{
  boot_config_amps, get_fault_log, get_lifetime_kwh, calibration, bl0939_cal, authlist_remove,
  authlist_clear, authlist_get_list, require_rfid_auth, gfci_policy, ota,
}
use open_evcharger.Tasks.PersistTask.{
  Queued, event, session, crash_state_reset, authlist_add, command, Stored, handle, handle_command,
  config_slots,
}
use open_evcharger.Tasks.PersistTask.Regions.{
  event-IsAligned, session-IsAligned, config_change-Keeps, cal_call-Keeps, crash_reset-Keeps,
  card_add-Keeps, card_remove-Keeps, card_clear-Keeps,
}

-- What is stored, by the sectors it has.
pub data Part : Type 0 where
  settings : Part
  scales : Part
  faults : Part
  sessions_log : Part
  crashes : Part
  card_list : Part
  staging : Part
  nothing : Part

unfoldable pub first_sector : Part → ℕ
first_sector settings = 0
first_sector scales = 2
first_sector faults = 4
first_sector sessions_log = 0x44
first_sector crashes = 0x4D
first_sector card_list = 5
first_sector staging = 0x400
first_sector nothing = 0

unfoldable pub behind_sector : Part → ℕ
behind_sector settings = 2
behind_sector scales = 4
behind_sector faults = 0x44
behind_sector sessions_log = 0x4C
behind_sector crashes = 0x4F
behind_sector card_list = 7
behind_sector staging = 0x500
behind_sector nothing = 0

-- The part that a request is about.
unfoldable pub owner : Queued → Part
owner (event rec) = faults
owner (session rec) = sessions_log
owner crash_state_reset = crashes
owner (authlist_add uid) = card_list
owner (command (boot_config_amps amps)) = settings
owner (command (get_fault_log max_count seq)) = nothing
owner (command (get_lifetime_kwh seq)) = nothing
owner (command (calibration anchor_raw slope_num slope_den)) = scales
owner (command (bl0939_cal v ia ib pa freq_const)) = scales
owner (command (authlist_remove uid)) = card_list
owner (command authlist_clear) = card_list
owner (command (authlist_get_list seq)) = nothing
owner (command (require_rfid_auth enable)) = settings
owner (command (gfci_policy policy)) = settings
owner (command (ota (begin image_size image_crc32 id) seq)) = staging
owner (command (ota (chunk id offset bytes) seq)) = staging
owner (command (ota (commit id) seq)) = settings
owner (command (ota (abort id) seq)) = nothing

-- Records of the logs have their 32 bytes and a head in the region, a card has 32 bits, and the list of cards
-- is well-formed.
unfoldable pub IsFine : {M : Type 0} → Queued → Stored M → Type 0
IsFine (event rec) s = (length rec ≡ 32) × (s.events.head_slot < total_records event_layout)
IsFine (session rec) s = (length rec ≡ 32) × (s.sessions.head_slot < total_records session_layout)
IsFine (authlist_add uid) s = (uid < 2 ^ 32) × Wf s.cards
IsFine (command (authlist_remove uid)) s = Wf s.cards
IsFine (command authlist_clear) s = Wf s.cards
IsFine _ s = Unit {0}

abbrev pub KeepsPart : {M : Type 0} → Flash M → Part → M → M → Type 0
KeepsPart F p m m1 = Keeps F (first_sector p) (behind_sector p) m m1

module _ {M : Type 0} (F : Flash M) (chip : Chip F) where
  ota-Keeps :
      (q : OtaReq) (seq : ℕ) (o : Ota M)
      → KeepsPart F
          (owner (command (ota q seq)))
          o.flash
          (Ota.dispatch F (config_slots F) q o).1.flash
  unfolding owner first_sector behind_sector Ota.dispatch handle_ota_begin handle_ota_chunk
      handle_ota_commit handle_ota_abort
  ota-Keeps (begin image_size image_crc32 id) seq o =
      let same = Keeps-refl F 0x400 0x500 o.flash in
      let erased = ota_stage_begin-Keeps F chip o.flash image_size in
      elim (Bool-cases (id == 0 || image_size == 0)) [
        | inl h1 ↦ rw h1 same
        | inr h1 ↦ elim (Bool-cases (ltb region_size image_size)) [
          | inl h2 ↦ rw (h1, h2) same
          | inr h2 ↦ elim (done-cases (ota_stage_begin F o.flash image_size).0) [
            | inl ok ↦ rw (h1, h2, ok) erased
            | inr (code, bad) ↦ rw (h1, h2, bad) erased
          ]
        ]
      ]
  ota-Keeps (chunk id offset bytes) seq o =
      let w = ota_stage_write F o.flash offset bytes in
      let same = Keeps-refl F 0x400 0x500 o.flash in
      let written = ota_stage_write-Keeps F chip o.flash offset bytes in
      elim (Bool-cases (ota_in_session o.s_ota)) [
        | inr h1 ↦ rw h1 same
        | inl h1 ↦ elim (Bool-cases (id == o.s_ota.session_id)) [
          | inr h2 ↦ rw (h1, h2) same
          | inl h2 ↦ elim (Bool-cases (offset == o.s_ota.next_offset)) [
            | inr h3 ↦ rw (h1, h2, h3) same
            | inl h3 ↦ elim (Bool-cases (ltb o.s_ota.expected_size (offset + length bytes))) [
              | inl h4 ↦ rw (h1, h2, h3, h4) same
              | inr h4 ↦ elim (done-cases w.0) [
                | inl ok ↦ rw (h1, h2, h3, h4, ok) written
                | inr (code, bad) ↦ rw (h1, h2, h3, h4, bad) written
              ]
            ]
          ]
        ]
      ]
  ota-Keeps (commit id) seq o =
      let x = o.s_ota in
      let same = Keeps-refl F 0 2 o.flash in
      let marked : Keeps F 0 2 o.flash
          (ota_stage_mark_pending (config_slots F) o.cfg o.flash x.expected_size
            x.expected_crc32).2 =
        unfold ota_stage_mark_pending change in
        (config_change-Keeps F chip o.flash (set_pending_ota 1 x.expected_size x.expected_crc32)
          o.cfg) in
      elim (Bool-cases (ota_in_session x)) [
        | inr h1 ↦ rw h1 same
        | inl h1 ↦ elim (Bool-cases (id == x.session_id)) [
          | inr h2 ↦ rw (h1, h2) same
          | inl h2 ↦ elim (Bool-cases (x.next_offset == x.expected_size)) [
            | inr h3 ↦ rw (h1, h2, h3) same
            | inl h3 ↦
                elim (Bool-cases
                  (ota_stage_compute_crc F o.flash x.expected_size == x.expected_crc32)) [
                    | inr h4 ↦ rw (h1, h2, h3, h4) same
                    | inl h4 ↦ rw (h1, h2, h3, h4) marked
                  ]
          ]
        ]
      ]
  ota-Keeps (abort id) seq o =
      elim (Bool-cases (ota_in_session o.s_ota && id == o.s_ota.session_id)) [
        | inl h ↦ rw h (Keeps-refl F 0 0 o.flash)
        | inr h ↦ rw h (Keeps-refl F 0 0 o.flash)
      ]

  -- A request changes the sectors of the part that it is about, and reads nowhere else differently.
  pub handle-Keeps :
      (q : Queued) (s : Stored M)
      → IsFine q s
      → KeepsPart F (owner q) s.flash (handle F q s).1.flash
  unfolding owner first_sector behind_sector handle handle_command IsFine
  handle-Keeps (event rec) s fine =
      log_append-Keeps F chip event_layout event-IsAligned s.events s.flash fine.1 rec fine.0
  handle-Keeps (session rec) s fine =
      log_append-Keeps F chip session_layout session-IsAligned s.sessions s.flash fine.1 rec fine.0
  handle-Keeps crash_state_reset s fine = crash_reset-Keeps F chip s.flash s.crash
  handle-Keeps (authlist_add uid) s fine = card_add-Keeps F chip s.flash s.cards fine.1 uid fine.0
  handle-Keeps (command (boot_config_amps amps)) s fine =
      unfold change in config_change-Keeps F chip s.flash (set_amps amps) s.cfg
  handle-Keeps (command (get_fault_log max_count seq)) s fine = Keeps-refl F 0 0 s.flash
  handle-Keeps (command (get_lifetime_kwh seq)) s fine = Keeps-refl F 0 0 s.flash
  handle-Keeps (command (calibration anchor_raw slope_num slope_den)) s fine =
      unfold cal_call in cal_call-Keeps F chip s.flash (set_cp anchor_raw slope_num slope_den) s.cal
  handle-Keeps (command (bl0939_cal v ia ib pa freq_const)) s fine =
      unfold cal_call in cal_call-Keeps F chip s.flash (set_bl0939 v ia ib pa freq_const) s.cal
  handle-Keeps (command (authlist_remove uid)) s fine =
      card_remove-Keeps F chip s.flash s.cards fine uid
  handle-Keeps (command authlist_clear) s fine = card_clear-Keeps F chip s.flash s.cards fine
  handle-Keeps (command (authlist_get_list seq)) s fine = Keeps-refl F 0 0 s.flash
  handle-Keeps (command (require_rfid_auth enable)) s fine =
      unfold change in config_change-Keeps F chip s.flash (set_rfid_auth enable) s.cfg
  handle-Keeps (command (gfci_policy policy)) s fine =
      unfold change in config_change-Keeps F chip s.flash (set_gfci_policy policy) s.cfg
  handle-Keeps (command (ota q seq)) s fine =
      ota-Keeps q seq (record { s_ota = s.s_ota; cfg = s.cfg; flash = s.flash })
