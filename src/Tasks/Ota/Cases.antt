-- ===== src/Tasks/Ota/Cases.antt =====
-- How the OTA handlers of src/tasks/persist_task.c can end.
use open_evcharger.Prelude.{
  ℕ, ◌+◌, ◌≡◌, ◌≢◌, ◌≤◌, ◌<◌, ◌⊎◌, refl, List, ◌||◌, Bool-cases, inl, inr, ◌==◌, ==_iff, ltb,
  length, arith,
}
use open_evcharger.Persist.Flash.{Flash}
use open_evcharger.Persist.Slot.{Store}
use open_evcharger.Persist.BootConfig.{BootConfig}
use open_evcharger.Persist.OtaStage.{
  StageResult, done, stage_failed, ota_stage_begin, ota_stage_write, region_size, ota_crc_update,
}
use open_evcharger.Tasks.Ota.{
  ok, Ota, handle_ota_begin, handle_ota_chunk, ota_in_session, ota_session_reset,
}

pub done-cases : (r : StageResult) → (r ≡ done) ⊎ ((code : ℕ) × (r ≡ stage_failed code))
done-cases done = inl refl
done-cases (stage_failed code) = inr (code, refl)

module _ {M : Type 0} (F : Flash M) (S : Store M BootConfig) (o : Ota M) where
  -- How a begin ends: refused, with the session reset, or with a new session.
  pub begin-cases :
      (image_size image_crc32 id : ℕ)
      → let r = handle_ota_begin F S o image_size image_crc32 id in
        let e = ota_stage_begin F o.flash image_size in
        ((r.0 ≢ ok) × (r.1.s_ota ≡ o.s_ota))
        ⊎ ((r.0 ≢ ok) × (r.1.s_ota ≡ ota_session_reset))
        ⊎ ((0 < id)
            × (image_size ≤ region_size)
            × (e.0 ≡ done)
            × (r ≡ (
              ok,
              record o {
                s_ota = record {
                  session_id = id;
                  expected_size = image_size;
                  expected_crc32 = image_crc32;
                  next_offset = 0;
                  running_crc = 0xFFFFFFFF;
                };
                flash = e.1;
              },
            )))
  unfolding handle_ota_begin
  begin-cases image_size image_crc32 id = elim (Bool-cases (id == 0 || image_size == 0)) [
    | inl h ↦ inl (rw h ((λ x. ground (arith, x)), refl))
    | inr valid ↦ elim (Bool-cases (ltb region_size image_size)) [
      | inl h ↦ inl (rw (valid, h) ((λ x. ground (arith, x)), refl))
      | inr fits ↦ elim (done-cases (ota_stage_begin F o.flash image_size).0) [
        | inl h ↦
            inr (inr (ground (arith, valid), ground (arith, fits), h, rw (valid, fits, h) refl))
        | inr (code, h) ↦ inr (inl (rw (valid, fits, h) ((λ x. ground (arith, x)), refl)))
      ]
    ]
  ]

  -- How a chunk ends: refused or failed, with the session as it was, or taken.
  pub chunk-cases :
      (id offset : ℕ) (bytes : List ℕ)
      → let r = handle_ota_chunk F S o id offset bytes in
        let w = ota_stage_write F o.flash offset bytes in
        ((r.0 ≢ ok) × (r.1.s_ota ≡ o.s_ota))
        ⊎ ((id ≡ o.s_ota.session_id)
            × (offset ≡ o.s_ota.next_offset)
            × (offset + length bytes ≤ o.s_ota.expected_size)
            × (w.0 ≡ done)
            × (r ≡ (
              ok,
              record o {
                s_ota = record (o.s_ota) {
                  next_offset = offset + length bytes;
                  running_crc = ota_crc_update o.s_ota.running_crc bytes;
                };
                flash = w.1;
              },
            )))
  unfolding handle_ota_chunk
  chunk-cases id offset bytes = elim (Bool-cases (ota_in_session o.s_ota)) [
    | inr h ↦ inl (rw h ((λ x. ground (arith, x)), refl))
    | inl live ↦ elim (Bool-cases (id == o.s_ota.session_id)) [
      | inr h ↦ inl (rw (live, h) ((λ x. ground (arith, x)), refl))
      | inl mine ↦ elim (Bool-cases (offset == o.s_ota.next_offset)) [
        | inr h ↦ inl (rw (live, mine, h) ((λ x. ground (arith, x)), refl))
        | inl next ↦ elim (Bool-cases (ltb o.s_ota.expected_size (offset + length bytes))) [
          | inl h ↦ inl (rw (live, mine, next, h) ((λ x. ground (arith, x)), refl))
          | inr room ↦ elim (done-cases (ota_stage_write F o.flash offset bytes).0) [
            | inl h ↦ inr (
              (==_iff id o.s_ota.session_id).0 mine,
              (==_iff offset o.s_ota.next_offset).0 next,
              ground (arith, room),
              h,
              rw (live, mine, next, room, h) refl,
            )
            | inr (code, h) ↦ inl (rw (live, mine, next, room, h) ((λ x. ground (arith, x)), refl))
          ]
        ]
      ]
    ]
  ]
