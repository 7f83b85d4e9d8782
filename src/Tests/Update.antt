-- ===== src/Tests/Update.antt =====
-- Runs of the settings and of a firmware update on a chip in memory.
use open_evcharger.Prelude.{ℕ, ◌≡◌, refl, ap, ◌∙◌, List, [], ◌∷◌, true, false, some, arith}
use open_evcharger.Persist.Bytes.{le32_load, le32_store}
use open_evcharger.Persist.Crc.{crc32, crc32-lt}
use open_evcharger.Persist.Flash.{same_bytes}
use open_evcharger.Persist.Pingpong.{
  pingpong_store, rewrite, retire, has_slot, current, validate, target_slot, cur_counter,
  refused_size, read_and_validate, stamp,
}
use open_evcharger.Persist.Pingpong.Laws.{Placed}
use open_evcharger.Tests.Chip.{cells, cleared, filled, memory, memory-Chip, failing}
use open_evcharger.Persist.Bytes.{zeros}
use open_evcharger.Persist.Slot.{Store, Durable, pingpong, pingpong-Durable}
use open_evcharger.Tests.Store.{store_memory}
use open_evcharger.Persist.BootConfig.{
  BootConfig, set_amps, change, config_layout, config_encode, config_store,
  boot_config_set_advertised_amps, boot_config_set_pending_ota,
}
use open_evcharger.Persist.BootConfig.Image.{
  ConfigFits, config_layout-Faithful, length-config_encode,
}
use open_evcharger.Persist.BootConfig.Settings.{asked, refused, change-durable, change-retried}
use open_evcharger.Persist.OtaStage.{
  ota_stage_begin, erase_sectors, ota_stage_write, write_pages, this_prog, ota_stage_compute_crc,
  ota_stage_mark_pending, region_base,
}
use open_evcharger.Persist.OtaStage.Crc.{compute_crc-crc32}
use open_evcharger.Tasks.Ota.{
  ota_in_session, OtaStatus, ok, Ota, handle_ota_begin, handle_ota_chunk, handle_ota_commit,
  ota_session_reset,
}
use open_evcharger.Tasks.Ota.Commit.{Pending, commit_sound}
use open_evcharger.Tasks.Ota.Staged.{stop, taken, commit-ready, upload-commits}

abbrev config_slots : Placed 0x000000 0x001000 32
config_slots = record {
  apart = λ e. absurd (omega (arith, e));
  fits_a = omega arith;
  fits_b = omega arith;
  large = omega arith;
  small = omega arith;
}

abbrev empty_chip : ℕ → ℕ
empty_chip a = 0xFF

abbrev settings : Store (ℕ → ℕ) BootConfig
settings = pingpong memory 0x000000 0x001000 config_layout

settings_durable : Durable settings ConfigFits
settings_durable =
    pingpong-Durable memory memory-Chip 0x000000 0x001000 config_layout ConfigFits
      config_layout-Faithful config_slots

settings_works : (m : ℕ → ℕ) (c : BootConfig) → (settings.store m c).0 ≡ true
settings_works m c =
    store_memory m 0x000000 0x001000 32 (config_encode c) (length-config_encode c) (omega arith)
      (omega arith)

abbrev factory : BootConfig
factory = record {
  version = 1;
  fc41d_advertised_amps = 0;
  require_rfid_auth = 0;
  pending_ota_flag = 0;
  staged_image_size = 0;
  staged_image_crc32 = 0;
  gfci_fault_policy = 0;
}

factory_fits : ConfigFits factory
factory_fits = record { size_fits = omega arith; crc_fits = omega arith }

abbrev set_up : (ℕ → ℕ) → ℕ → ℕ
set_up m = (settings.store m factory).1

set_up_held : (m : ℕ → ℕ) → settings.load (set_up m) ≡ some factory
set_up_held m = settings_durable.load_store m factory factory_fits (settings_works m factory)

sixteen_stored : (change settings (set_amps 16) factory (set_up empty_chip)).0 ≡ true
unfolding change boot_config_set_advertised_amps config_store
sixteen_stored = settings_works (set_up empty_chip) (record factory { fc41d_advertised_amps = 16 })

sixteen_fits : ConfigFits (asked (set_amps 16) factory)
unfolding asked
sixteen_fits = record { size_fits = omega arith; crc_fits = omega arith }

sixteen_accepted : refused (set_amps 16) ≡ false
unfolding refused
sixteen_accepted = refl

change-durable_example :
    let r = change settings (set_amps 16) factory (set_up empty_chip) in
    (settings.load r.2 ≡ some r.1)
    × (record (r.1) { version = 0 } ≡ record (asked (set_amps 16) factory) { version = 0 })
change-durable_example =
    change-durable settings factory (set_up empty_chip) settings_durable (set_up_held empty_chip)
      (set_amps 16) sixteen_fits sixteen_stored

-- Settings on the chip that loses its power at every program.
abbrev lost_settings : Store (ℕ → ℕ) BootConfig
lost_settings = pingpong failing 0x000000 0x001000 config_layout

change-retried_example :
    let r = change lost_settings (set_amps 16) factory empty_chip in
    change lost_settings (set_amps 16) r.1 r.2 ≡ (true, r.1, r.2)
change-retried_example =
    change-retried lost_settings factory empty_chip (set_amps 16) sixteen_accepted

compute_crc-crc32_example :
    ota_stage_compute_crc memory empty_chip 300 ≡ crc32 (memory.read empty_chip region_base 300)
compute_crc-crc32_example = compute_crc-crc32 memory memory-Chip empty_chip 300

-- An image of five bytes.
abbrev image : List ℕ
image = 1 ∷ 2 ∷ 3 ∷ 4 ∷ 5 ∷ []

abbrev idle : Ota (ℕ → ℕ)
idle = record { s_ota = ota_session_reset; cfg = factory; flash = empty_chip }

abbrev begun : OtaStatus × Ota (ℕ → ℕ)
begun = handle_ota_begin memory settings idle 5 (crc32 image) 77

abbrev filled_up : OtaStatus × Ota (ℕ → ℕ)
filled_up = handle_ota_chunk memory settings begun.1 77 0 image

begun_ok : begun.0 ≡ ok
unfolding handle_ota_begin ota_stage_begin erase_sectors
begun_ok = refl

image_taken : filled_up ≡ (ok, filled_up.1)
unfolding handle_ota_begin handle_ota_chunk ota_in_session ota_stage_begin erase_sectors
    ota_stage_write write_pages this_prog
image_taken = refl

pending_stored :
    (ota_stage_mark_pending settings filled_up.1.cfg filled_up.1.flash 5 (crc32 image)).0 ≡ true
unfolding ota_stage_mark_pending boot_config_set_pending_ota config_store handle_ota_begin
    handle_ota_chunk ota_in_session ota_stage_begin erase_sectors ota_stage_write write_pages
    this_prog
pending_stored = settings_works _ _

upload-commits_example : (handle_ota_commit memory settings filled_up.1 77).0 ≡ ok
upload-commits_example =
    upload-commits memory settings memory-Chip idle filled_up.1 77 (crc32 image) image refl begun_ok
      (taken 0 image image_taken stop) pending_stored

-- The same image behind a store of the settings.
abbrev staged : Ota (ℕ → ℕ)
staged = record {
  s_ota = record {
    session_id = 77;
    expected_size = 5;
    expected_crc32 = crc32 image;
    next_offset = 5;
    running_crc = 0;
  };
  cfg = factory;
  flash = set_up (filled empty_chip region_base image);
}

staged_image : cells staged.flash region_base 5 ≡ image
unfolding pingpong_store refused_size target_slot current read_and_validate validate le32_load cells
    crc32 rewrite same_bytes stamp le32_store filled cur_counter retire has_slot cleared
    config_encode zeros
staged_image = refl

staged_crc : ota_stage_compute_crc memory staged.flash 5 ≡ crc32 image
staged_crc = compute_crc-crc32 memory memory-Chip staged.flash 5 ∙ ap crc32 staged_image

staged_pending : (ota_stage_mark_pending settings factory staged.flash 5 (crc32 image)).0 ≡ true
unfolding ota_stage_mark_pending boot_config_set_pending_ota config_store
staged_pending = settings_works _ _

staged_commits : (handle_ota_commit memory settings staged 77).0 ≡ ok
staged_commits =
    commit-ready memory settings memory-Chip staged 77 5 (crc32 image) (omega arith) refl refl refl
      refl staged_crc staged_pending

commit_sound_example :
    let r = handle_ota_commit memory settings staged 77 in
    (staged.s_ota.next_offset ≡ staged.s_ota.expected_size)
    × (crc32 (memory.read staged.flash region_base 5) ≡ crc32 image)
    × (settings.load r.1.flash ≡ some r.1.cfg)
    × Pending r.1.cfg 5 (crc32 image)
commit_sound_example =
    commit_sound memory settings staged 77 memory-Chip settings_durable
      (set_up_held (filled empty_chip region_base image)) (omega arith) (crc32-lt image)
      staged_commits
