-- ===== src/Tasks/Ota/Commit.antt =====
-- What a commit of src/tasks/persist_task.c stands for.
use open_evcharger.Prelude.{
  ℕ, ◌^◌, ◌≡◌, ◌≢◌, ◌<◌, ◌⊎◌, refl, sym, ◌∙◌, Bool, true, ◌&&◌, some, Bool-cases, inl, inr, ◌==◌,
  ==_iff, arith,
}
use open_evcharger.Persist.Crc.{crc32}
use open_evcharger.Persist.Flash.{Flash, Chip}
use open_evcharger.Persist.Slot.{Store, Durable}
use open_evcharger.Persist.BootConfig.{
  BootConfig, set_pending_ota, change, boot_config_set_pending_ota, config_store,
}
use open_evcharger.Persist.BootConfig.Image.{ConfigFits}
use open_evcharger.Persist.BootConfig.Settings.{asked, change-durable}
use open_evcharger.Persist.OtaStage.{ota_stage_compute_crc, ota_stage_mark_pending, region_base}
use open_evcharger.Persist.OtaStage.Crc.{compute_crc-crc32}
use open_evcharger.Tasks.Ota.{ok, Ota, handle_ota_commit, ota_in_session}

-- The settings that start the staged image on the next boot.
pub record Pending (c : BootConfig) (size crc : ℕ) : Type 0 where
  pub flagged : c.pending_ota_flag ≡ 1
  pub sized : c.staged_image_size ≡ size
  pub checked : c.staged_image_crc32 ≡ crc

module _ {M : Type 0} (S : Store M BootConfig) (c : BootConfig) (m : M) (size crc : ℕ) where
  mark-Pending : Pending (ota_stage_mark_pending S c m size crc).1 size crc
  unfolding ota_stage_mark_pending boot_config_set_pending_ota config_store
  mark-Pending =
      elim (Bool-cases
        (c.pending_ota_flag == 1 && (c.staged_image_size == size && c.staged_image_crc32 == crc))) [
          | inl h ↦ rw h (record {
            flagged = ground (arith, h);
            sized = ground (arith, h);
            checked = ground (arith, h);
          })
          | inr h ↦ rw h (record { flagged = refl; sized = refl; checked = refl })
        ]

  mark-change : ota_stage_mark_pending S c m size crc ≡ change S (set_pending_ota 1 size crc) c m
  unfolding ota_stage_mark_pending change
  mark-change = refl

  mark-durable :
      Durable S ConfigFits
      → S.load m ≡ some c
      → size < 2 ^ 32
      → crc < 2 ^ 32
      → let r = ota_stage_mark_pending S c m size crc in r.0 ≡ true → S.load r.2 ≡ some r.1
  unfolding ota_stage_mark_pending change asked
  mark-durable durable held size_fits crc_fits h =
      (change-durable S c m durable held (set_pending_ota 1 size crc)
        (record { size_fits = size_fits; crc_fits = crc_fits }) h).0

module _ {M : Type 0} (F : Flash M) (S : Store M BootConfig) (o : Ota M) (id : ℕ) where
  abbrev pub mark : Bool × BootConfig × M
  mark = ota_stage_mark_pending S o.cfg o.flash o.s_ota.expected_size o.s_ota.expected_crc32

  -- A commit that gets as far as the settings.
  commit-cases :
      ((handle_ota_commit F S o id).0 ≢ ok)
      ⊎ ((o.s_ota.next_offset ≡ o.s_ota.expected_size)
          × (ota_stage_compute_crc F o.flash o.s_ota.expected_size ≡ o.s_ota.expected_crc32)
          × (mark.0 ≡ true)
          × (handle_ota_commit F S o id ≡ (ok, record o { cfg = mark.1; flash = mark.2 })))
  unfolding handle_ota_commit
  commit-cases = elim (Bool-cases (ota_in_session o.s_ota)) [
    | inr h ↦ inl (λ e. ground (arith, h, e))
    | inl live ↦ elim (Bool-cases (id == o.s_ota.session_id)) [
      | inr h ↦ inl (λ e. ground (arith, live, h, e))
      | inl mine ↦ elim (Bool-cases (o.s_ota.next_offset == o.s_ota.expected_size)) [
        | inr h ↦ inl (λ e. ground (arith, live, mine, h, e))
        | inl whole ↦
            elim (Bool-cases
              (ota_stage_compute_crc F o.flash o.s_ota.expected_size == o.s_ota.expected_crc32)) [
                | inr h ↦ inl (λ e. ground (arith, live, mine, whole, h, e))
                | inl good ↦ elim (Bool-cases mark.0) [
                  | inr h ↦ inl (λ e. ground (arith, live, mine, whole, good, h, e))
                  | inl stored ↦ inr (
                    (==_iff o.s_ota.next_offset o.s_ota.expected_size).0 whole,
                    (==_iff (ota_stage_compute_crc F o.flash o.s_ota.expected_size)
                          o.s_ota.expected_crc32).0
                        good,
                    stored,
                    rw (live, mine, whole, good, stored) refl,
                  )
                ]
              ]
      ]
    ]
  ]

  -- On a chip and a store of settings that keep their promises, with settings that are the stored ones and
  -- an announced size and checksum of 32 bits: a commit answered with OK means that as many bytes were taken
  -- as announced, that the bytes in the staging region have the announced checksum, and that the stored
  -- settings hold the pending flag with that size and checksum.
  pub commit_sound :
      Chip F
      → Durable S ConfigFits
      → S.load o.flash ≡ some o.cfg
      → o.s_ota.expected_size < 2 ^ 32
      → o.s_ota.expected_crc32 < 2 ^ 32
      → let r = handle_ota_commit F S o id in
        r.0 ≡ ok
        → (o.s_ota.next_offset ≡ o.s_ota.expected_size)
          × (crc32 (F.read o.flash region_base o.s_ota.expected_size) ≡ o.s_ota.expected_crc32)
          × (S.load r.1.flash ≡ some r.1.cfg)
          × Pending r.1.cfg o.s_ota.expected_size o.s_ota.expected_crc32
  commit_sound chip durable held size_fits crc_fits e = elim commit-cases [
    | inl other ↦ absurd (other e)
    | inr (whole, good, stored, same) ↦ rw same (
      whole,
      sym (compute_crc-crc32 F chip o.flash o.s_ota.expected_size) ∙ good,
      mark-durable S o.cfg o.flash o.s_ota.expected_size o.s_ota.expected_crc32 durable held
          size_fits crc_fits stored,
      mark-Pending S o.cfg o.flash o.s_ota.expected_size o.s_ota.expected_crc32,
    )
  ]
