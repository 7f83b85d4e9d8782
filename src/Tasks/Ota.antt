-- ===== src/Tasks/Ota.antt =====
-- The session of a firmware update: the OTA handlers of src/tasks/persist_task.c.
pub mod Cases
pub mod Upload
pub mod Staged
pub mod Commit
use open_evcharger.Prelude.{
  ℕ, zero, suc, ◌+◌, List, [], ◌∷◌, Bool, true, false, ◌&&◌, ◌||◌, not, if◌then◌else◌, ◌==◌, ltb,
  length,
}
use open_evcharger.Persist.Flash.{Flash}
use open_evcharger.Persist.Slot.{Store}
use open_evcharger.Persist.BootConfig.{BootConfig}
use open_evcharger.Persist.OtaStage.{
  StageResult, done, stage_failed, ota_crc_init, ota_crc_update, ota_crc_finalize, ota_stage_begin,
  ota_stage_write, ota_stage_compute_crc, ota_stage_mark_pending, region_size,
}

-- `OTA_STATUS_*` of src/proto/commands.h, in its order.
pub data OtaStatus : Type 0 where
  ok : OtaStatus
  session_invalid : OtaStatus
  offset_mismatch : OtaStatus
  write_error : OtaStatus
  oversize : OtaStatus
  too_large : OtaStatus
  erase_fail : OtaStatus
  invalid_payload : OtaStatus
  no_session : OtaStatus
  crc_mismatch : OtaStatus
  persist_fail : OtaStatus

-- `s_ota`.
pub record OtaSession : Type 0 where
  pub session_id : ℕ
  pub expected_size : ℕ
  pub expected_crc32 : ℕ
  pub next_offset : ℕ
  pub running_crc : ℕ

-- The session, the settings, and the flash that holds them and the image.
pub record Ota (M : Type 0) : Type 0 where
  pub s_ota : OtaSession
  pub cfg : BootConfig
  pub flash : M

-- What is published, without the sequence number that is passed on: `EVT_OTA_BEGIN_ACK`, `EVT_OTA_CHUNK_ACK`,
-- `EVT_OTA_COMMITTED` and `EVT_OTA_ABORTED`.
pub data OtaEvent : Type 0 where
  begin_ack : (session_id : ℕ) → (status : OtaStatus) → (chunk_size_max : ℕ) → OtaEvent
  chunk_ack :
      (session_id : ℕ) → (next_offset : ℕ) → (running_crc32 : ℕ) → (status : OtaStatus) → OtaEvent
  committed : (session_id : ℕ) → (status : OtaStatus) → OtaEvent
  aborted : (session_id : ℕ) → OtaEvent

unfoldable pub ota_in_session : OtaSession → Bool
ota_in_session s = not (s.session_id == 0)

abbrev pub ota_session_reset : OtaSession
ota_session_reset = record {
  session_id = 0;
  expected_size = 0;
  expected_crc32 = 0;
  next_offset = 0;
  running_crc = 0xFFFFFFFF;
}

module _ {M : Type 0} (F : Flash M) (S : Store M BootConfig) where
  unfoldable pub handle_ota_begin : Ota M → (image_size image_crc32 id : ℕ) → OtaStatus × Ota M
  handle_ota_begin o image_size image_crc32 id =
      let e = ota_stage_begin F o.flash image_size in
      let fresh : OtaSession = record {
        session_id = id;
        expected_size = image_size;
        expected_crc32 = image_crc32;
        next_offset = 0;
        running_crc = 0xFFFFFFFF;
      } in
      if id == 0 || image_size == 0
      then (invalid_payload, o)
      else if ltb region_size image_size
      then (too_large, o)
      else elim e.0 [
        | done ↦ (ok, record o { s_ota = fresh; flash = e.1 })
        | stage_failed code ↦ (erase_fail, record o { s_ota = ota_session_reset; flash = e.1 })
      ]

  unfoldable pub handle_ota_chunk : Ota M → (id offset : ℕ) → List ℕ → OtaStatus × Ota M
  handle_ota_chunk o id offset bytes =
      let s = o.s_ota in
      let w = ota_stage_write F o.flash offset bytes in
      if not (ota_in_session s)
      then (no_session, o)
      else if not (id == s.session_id)
      then (session_invalid, o)
      else if not (offset == s.next_offset)
      then (offset_mismatch, o)
      else if ltb s.expected_size (offset + length bytes)
      then (oversize, o)
      else elim w.0 [
        | done ↦ (
          ok,
          record o {
            s_ota = record s {
              next_offset = offset + length bytes;
              running_crc = ota_crc_update s.running_crc bytes;
            };
            flash = w.1;
          },
        )
        | stage_failed code ↦ (write_error, record o { flash = w.1 })
      ]

  unfoldable pub handle_ota_commit : Ota M → (id : ℕ) → OtaStatus × Ota M
  handle_ota_commit o id =
      let s = o.s_ota in
      let p = ota_stage_mark_pending S o.cfg o.flash s.expected_size s.expected_crc32 in
      if not (ota_in_session s)
      then (no_session, o)
      else if not (id == s.session_id)
      then (session_invalid, o)
      else if not (s.next_offset == s.expected_size)
      then (offset_mismatch, o)
      else if not (ota_stage_compute_crc F o.flash s.expected_size == s.expected_crc32)
      then (crc_mismatch, o)
      else (if p.0 then ok else persist_fail, record o { cfg = p.1; flash = p.2 })

  unfoldable pub handle_ota_abort : Ota M → (id : ℕ) → Ota M
  handle_ota_abort o id =
      if ota_in_session o.s_ota && id == o.s_ota.session_id
      then record o { s_ota = ota_session_reset }
      else o

-- The requests of an update in the persist task's queue. A chunk has 1 to 48 bytes.
pub data OtaReq : Type 0 where
  begin : (image_size image_crc32 id : ℕ) → OtaReq
  chunk : (id offset : ℕ) → List ℕ → OtaReq
  commit : (id : ℕ) → OtaReq
  abort : (id : ℕ) → OtaReq

module _ {M : Type 0} (F : Flash M) (S : Store M BootConfig) where
  -- The branches of `persist_task_run` for them, with the event that each publishes.
  unfoldable pub dispatch : OtaReq → Ota M → OtaEvent × Ota M
  dispatch (begin image_size image_crc32 id) o =
      let r = handle_ota_begin F S o image_size image_crc32 id in (begin_ack id r.0 48, r.1)
  dispatch (chunk id offset bytes) o =
      let r = handle_ota_chunk F S o id offset bytes in
      (chunk_ack id r.1.s_ota.next_offset (ota_crc_finalize r.1.s_ota.running_crc) r.0, r.1)
  dispatch (commit id) o = let r = handle_ota_commit F S o id in (committed id r.0, r.1)
  dispatch (abort id) o = (aborted id, handle_ota_abort F S o id)

  unfoldable pub dispatch_all : List OtaReq → Ota M → Ota M
  dispatch_all [] o = o
  dispatch_all (q ∷ qs) o = dispatch_all qs (dispatch q o).1
