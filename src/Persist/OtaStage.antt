-- ===== src/Persist/OtaStage.antt =====
-- The staging of a firmware image of src/persist/ota_stage.c. The pending flag is one of the settings.
pub mod Crc
pub mod Pages
pub mod Erase
use open_evcharger.Prelude.{
  ℕ, zero, suc, ◌+◌, ◌-◌, ◌*◌, ◌/◌, ◌%◌, ◌^◌, List, [], ◌∷◌, Bool, true, false, if◌then◌else◌, ◌==◌,
  ltb, not, bit_xor, length, take, drop,
}
use open_evcharger.Persist.Crc.{crc32_rounds}
use open_evcharger.Persist.Flash.{Flash}
use open_evcharger.Persist.Slot.{Store}
use open_evcharger.Persist.BootConfig.{BootConfig, boot_config_set_pending_ota}

abbrev pub region_base : ℕ
region_base = 0x400000

abbrev pub region_size : ℕ
region_size = 0x100000

-- `ota_crc_init`, `ota_crc_update` and `ota_crc_finalize` on the running value.
unfoldable pub ota_crc_init : ℕ
ota_crc_init = 0xFFFFFFFF

unfoldable pub ota_crc_update : ℕ → List ℕ → ℕ
ota_crc_update state [] = state
ota_crc_update state (x ∷ xs) = ota_crc_update (crc32_rounds 8 (bit_xor state x)) xs

-- `~` on 32 bits turns every bit over.
unfoldable pub ota_crc_finalize : ℕ → ℕ
ota_crc_finalize state = bit_xor state 0xFFFFFFFF % 2 ^ 32

-- What a call returns: 0, or the code without its sign.
pub data StageResult : Type 0 where
  done : StageResult
  stage_failed : ℕ → StageResult

-- `this_prog`: the bytes left in the page, or those left to write.
unfoldable pub this_prog : ℕ → List ℕ → ℕ
this_prog addr src =
    let in_page = 256 - addr % 256 in if ltb (length src) in_page then length src else in_page

module _ {M : Type 0} (F : Flash M) where
  -- The loop of `ota_stage_begin`, with fuel.
  unfoldable pub erase_sectors : ℕ → ℕ → ℕ → M → StageResult × M
  erase_sectors zero addr end_aligned m = (done, m)
  erase_sectors (suc fuel) addr end_aligned m =
      let e = F.erase m addr in
      let rest = erase_sectors fuel (addr + 4096) end_aligned e.0 in
      if not (ltb addr end_aligned) then (done, m) else if e.1 then rest else (stage_failed 1, e.0)

  unfoldable pub ota_stage_begin : M → ℕ → StageResult × M
  ota_stage_begin m image_size =
      let end_aligned = (region_base + image_size + 4095) / 4096 * 4096 in
      if image_size == 0
      then (stage_failed 3, m)
      else if ltb region_size image_size
      then (stage_failed 2, m)
      else erase_sectors 257 region_base end_aligned m

  -- The loop of `ota_stage_write`: up to the end of the page, then the rest.
  unfoldable pub write_pages : ℕ → ℕ → List ℕ → M → StageResult × M
  write_pages zero addr src m = (done, m)
  write_pages (suc fuel) addr src m =
      let k = this_prog addr src in
      let p = F.program m addr (take k src) in
      let rest = write_pages fuel (addr + k) (drop k src) p.0 in
      if length src == 0 then (done, m) else if p.1 then rest else (stage_failed 1, p.0)

  unfoldable pub ota_stage_write : M → ℕ → List ℕ → StageResult × M
  ota_stage_write m offset src =
      if length src == 0
      then (stage_failed 4, m)
      else if ltb region_size (offset + length src)
      then (stage_failed 3, m)
      else write_pages (length src) (region_base + offset) src m

  -- The loop of `ota_stage_compute_crc`: 256 bytes at a time.
  unfoldable pub crc_chunks : ℕ → ℕ → ℕ → M → ℕ → ℕ
  crc_chunks zero addr remaining m state = state
  crc_chunks (suc fuel) addr remaining m state =
      let this_chunk = if ltb remaining 256 then remaining else 256 in
      let rest =
        crc_chunks fuel (addr + this_chunk) (remaining - this_chunk) m
          (ota_crc_update state (F.read m addr this_chunk)) in
      if remaining == 0 then state else rest

  unfoldable pub ota_stage_compute_crc : M → ℕ → ℕ
  ota_stage_compute_crc m image_size =
      ota_crc_finalize (crc_chunks image_size region_base image_size m ota_crc_init)

  unfoldable pub ota_stage_verify : M → ℕ → ℕ → Bool
  ota_stage_verify m image_size expected_crc32 =
      ota_stage_compute_crc m image_size == expected_crc32

module _ {M : Type 0} (S : Store M BootConfig) where
  unfoldable pub ota_stage_mark_pending : BootConfig → M → ℕ → ℕ → Bool × BootConfig × M
  ota_stage_mark_pending c m image_size image_crc32 =
      boot_config_set_pending_ota S c m 1 image_size image_crc32

  unfoldable pub ota_stage_clear_pending : BootConfig → M → Bool × BootConfig × M
  ota_stage_clear_pending c m = boot_config_set_pending_ota S c m 0 0 0
