-- ===== src/Persist/BootConfig.antt =====
-- The settings of src/persist/boot_config.c.
pub mod Image
pub mod Settings
use open_evcharger.Prelude.{
  ℕ, ◌+◌, List, [], ◌∷◌, ◌++◌, Bool, true, false, ◌&&◌, Option, none, some, if◌then◌else◌, ◌==◌,
  ltb, get_or,
}
use open_evcharger.Persist.Bytes.{zeros, le32, le32_load}
use open_evcharger.Persist.Slot.{Store, Layout}

-- `struct boot_config`, without the counter and the checksum.
pub record BootConfig : Type 0 where
  pub version : ℕ
  pub fc41d_advertised_amps : ℕ
  pub require_rfid_auth : ℕ
  pub pending_ota_flag : ℕ
  pub staged_image_size : ℕ
  pub staged_image_crc32 : ℕ
  pub gfci_fault_policy : ℕ

unfoldable pub config_encode : BootConfig → List ℕ
config_encode c =
    c.version
    ∷ (zeros 7
        ++ (c.fc41d_advertised_amps
            ∷ c.require_rfid_auth
            ∷ c.pending_ota_flag
            ∷ 0
            ∷ (le32 c.staged_image_size
                ++ (le32 c.staged_image_crc32 ++ (c.gfci_fault_policy ∷ zeros 11)))))

unfoldable pub config_decode : List ℕ → BootConfig
config_decode p = record {
  version = get_or p 0 0;
  fc41d_advertised_amps = get_or p 8 0;
  require_rfid_auth = get_or p 9 0;
  pending_ota_flag = get_or p 10 0;
  staged_image_size = le32_load p 12;
  staged_image_crc32 = le32_load p 16;
  gfci_fault_policy = get_or p 20 0;
}

abbrev pub config_layout : Layout BootConfig
config_layout = record { size = 32; encode = config_encode; decode = config_decode }

-- The calls that change a setting.
pub data Setting : Type 0 where
  set_amps : ℕ → Setting
  set_rfid_auth : ℕ → Setting
  set_gfci_policy : ℕ → Setting
  set_pending_ota : ℕ → ℕ → ℕ → Setting

module _ {M : Type 0} (S : Store M BootConfig) where
  -- The first component of a result tells whether the call returned 0.
  unfoldable pub config_store : BootConfig → M → Bool × BootConfig × M
  config_store c m =
      let stamped : BootConfig = record c { version = 1 } in
      let s = S.store m stamped in (s.0, stamped, s.1)

  unfoldable pub boot_config_load : M → Bool × BootConfig × M
  boot_config_load m = elim (S.load m) [
    | none ↦
        config_store
          (record {
            version = 1;
            fc41d_advertised_amps = 0;
            require_rfid_auth = 0;
            pending_ota_flag = 0;
            staged_image_size = 0;
            staged_image_crc32 = 0;
            gfci_fault_policy = 0;
          })
          m
    | some c ↦ (true, c, m)
  ]

  unfoldable pub boot_config_set_advertised_amps : BootConfig → M → ℕ → Bool × BootConfig × M
  boot_config_set_advertised_amps c m amps =
      if c.fc41d_advertised_amps == amps
      then (true, c, m)
      else config_store (record c { fc41d_advertised_amps = amps }) m

  unfoldable pub boot_config_set_require_rfid_auth : BootConfig → M → ℕ → Bool × BootConfig × M
  boot_config_set_require_rfid_auth c m enable =
      let enable1 = if enable == 0 then 0 else 1 in
      if c.require_rfid_auth == enable1
      then (true, c, m)
      else config_store (record c { require_rfid_auth = enable1 }) m

  unfoldable pub boot_config_set_gfci_fault_policy : BootConfig → M → ℕ → Bool × BootConfig × M
  boot_config_set_gfci_fault_policy c m policy =
      if ltb 1 policy
      then (false, c, m)
      else if c.gfci_fault_policy == policy
      then (true, c, m)
      else config_store (record c { gfci_fault_policy = policy }) m

  unfoldable pub boot_config_set_pending_ota : BootConfig → M → ℕ → ℕ → ℕ → Bool × BootConfig × M
  boot_config_set_pending_ota c m pending image_size image_crc32 =
      let pending1 = if pending == 0 then 0 else 1 in
      let size1 = if pending == 0 then 0 else image_size in
      let crc1 = if pending == 0 then 0 else image_crc32 in
      if c.pending_ota_flag == pending1
        && (c.staged_image_size == size1 && c.staged_image_crc32 == crc1)
      then (true, c, m)
      else config_store
          (record c {
            pending_ota_flag = pending1;
            staged_image_size = size1;
            staged_image_crc32 = crc1;
          })
          m

  unfoldable pub change : Setting → BootConfig → M → Bool × BootConfig × M
  change (set_amps a) c m = boot_config_set_advertised_amps c m a
  change (set_rfid_auth enable) c m = boot_config_set_require_rfid_auth c m enable
  change (set_gfci_policy policy) c m = boot_config_set_gfci_fault_policy c m policy
  change (set_pending_ota pending image_size image_crc32) c m =
      boot_config_set_pending_ota c m pending image_size image_crc32
