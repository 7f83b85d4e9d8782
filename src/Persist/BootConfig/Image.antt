-- ===== src/Persist/BootConfig/Image.antt =====
-- `struct boot_config` of src/persist/boot_config.h in its 32 bytes.
use open_evcharger.Prelude.{ℕ, ◌^◌, ◌≡◌, ◌<◌, ◌≤◌, refl, ap, ◌∙◌, List, length, get_or, arith}
use open_evcharger.Persist.Bytes.{zeros, le32, le32_load}
use open_evcharger.Persist.Slot.{Faithful}
use open_evcharger.Persist.Pingpong.{stamp}
use open_evcharger.Persist.Pingpong.Image.{get_or-stamp_front, get_or-stamp, le32_load-stamp}
use open_evcharger.Persist.BootConfig.{BootConfig, config_encode, config_decode, config_layout}

-- The size and the checksum of the staged image have 32 bits.
pub record ConfigFits (c : BootConfig) : Type 0 where
  pub size_fits : c.staged_image_size < 2 ^ 32
  pub crc_fits : c.staged_image_crc32 < 2 ^ 32

pub length-config_encode : (c : BootConfig) → length (config_encode c) ≡ 32
unfolding config_encode zeros le32
length-config_encode c = refl

config : ℕ → ℕ → ℕ → ℕ → ℕ → ℕ → ℕ → BootConfig
config v a r p s k g = record {
  version = v;
  fc41d_advertised_amps = a;
  require_rfid_auth = r;
  pending_ota_flag = p;
  staged_image_size = s;
  staged_image_crc32 = k;
  gfci_fault_policy = g;
}

module _ (c : BootConfig) (counter : ℕ) (fits : ConfigFits c) where
  abbrev pub image : List ℕ
  image = stamp 32 (config_encode c) counter

  byte_kept : (k : ℕ) → 8 ≤ k → k < 28 → get_or image k 0 ≡ get_or (config_encode c) k 0
  byte_kept k low high =
      get_or-stamp 32 (config_encode c) counter (length-config_encode c) (omega arith) k low
        (omega (arith, high))

  word_kept : (k : ℕ) → 8 ≤ k → k ≤ 24 → le32_load image k ≡ le32_load (config_encode c) k
  word_kept k low high =
      le32_load-stamp 32 (config_encode c) counter (length-config_encode c) (omega arith) k low
        (omega (arith, high))

  size_kept : le32_load (config_encode c) 12 ≡ c.staged_image_size
  unfolding config_encode zeros le32 le32_load
  size_kept = omega (arith, fits.size_fits)

  crc_kept : le32_load (config_encode c) 16 ≡ c.staged_image_crc32
  unfolding config_encode zeros le32 le32_load
  crc_kept = omega (arith, fits.crc_fits)

  front_kept : get_or image 0 0 ≡ c.version
  unfolding config_encode
  front_kept =
      get_or-stamp_front 32 (config_encode c) counter (length-config_encode c) (omega arith) 0
        (omega arith)

  all_kept : config_decode image ≡ c
  unfolding config_decode config_encode zeros le32 config
  all_kept =
      ap
        (λ x.
          config x (get_or image 8 0) (get_or image 9 0) (get_or image 10 0) (le32_load image 12)
            (le32_load image 16) (get_or image 20 0))
        front_kept
      ∙ ap
          (λ x.
            config c.version x (get_or image 9 0) (get_or image 10 0) (le32_load image 12)
              (le32_load image 16) (get_or image 20 0))
          (byte_kept 8 (omega arith) (omega arith))
      ∙ ap
          (λ x.
            config c.version c.fc41d_advertised_amps x (get_or image 10 0) (le32_load image 12)
              (le32_load image 16) (get_or image 20 0))
          (byte_kept 9 (omega arith) (omega arith))
      ∙ ap
          (λ x.
            config c.version c.fc41d_advertised_amps c.require_rfid_auth x (le32_load image 12)
              (le32_load image 16) (get_or image 20 0))
          (byte_kept 10 (omega arith) (omega arith))
      ∙ ap
          (λ x.
            config c.version c.fc41d_advertised_amps c.require_rfid_auth c.pending_ota_flag x
              (le32_load image 16) (get_or image 20 0))
          (word_kept 12 (omega arith) (omega arith) ∙ size_kept)
      ∙ ap
          (λ x.
            config c.version c.fc41d_advertised_amps c.require_rfid_auth c.pending_ota_flag
              c.staged_image_size x (get_or image 20 0))
          (word_kept 16 (omega arith) (omega arith) ∙ crc_kept)
      ∙ ap
          (λ x.
            config c.version c.fc41d_advertised_amps c.require_rfid_auth c.pending_ota_flag
              c.staged_image_size c.staged_image_crc32 x)
          (byte_kept 20 (omega arith) (omega arith))

pub config_layout-Faithful : Faithful config_layout ConfigFits
config_layout-Faithful = record {
  length-encode = λ c fits. length-config_encode c;
  decode_stamp = all_kept;
}
