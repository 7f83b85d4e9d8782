-- ===== src/Persist/Calibration/Image.antt =====
-- `struct calibration` of src/persist/calibration.h in its 32 bytes.
use open_evcharger.Prelude.{ℕ, ◌+◌, ◌^◌, ◌≡◌, ◌<◌, ◌≤◌, refl, ◌∙◌, List, length, get_or, arith}
use open_evcharger.Persist.Bytes.{zeros, le32, le32_load}
use open_evcharger.Persist.Slot.{Faithful}
use open_evcharger.Persist.Log.{le16, le16_load}
use open_evcharger.Persist.Pingpong.{stamp}
use open_evcharger.Persist.Pingpong.Image.{get_or-stamp_front, get_or-stamp, le32_load-stamp}
use open_evcharger.Persist.Calibration.{Calibration, cal_encode, cal_decode, cal_layout}

-- The words have 16 bits, the last 32.
pub record CalFits (c : Calibration) : Type 0 where
  pub anchor_fits : c.cp_anchor_raw < 65536
  pub num_fits : c.cp_slope_num < 65536
  pub den_fits : c.cp_slope_den < 65536
  pub v_fits : c.bl0939_v_uv_per_raw < 65536
  pub ia_fits : c.bl0939_ia_na_per_raw < 65536
  pub ib_fits : c.bl0939_ib_ua_per_raw < 65536
  pub pa_fits : c.bl0939_pa_uw_per_raw < 65536
  pub freq_fits : c.bl0939_freq_const < 2 ^ 32

pub length-cal_encode : (c : Calibration) → length (cal_encode c) ≡ 32
unfolding cal_encode zeros le32 le16
length-cal_encode c = refl

module _ (c : Calibration) (counter : ℕ) (fits : CalFits c) where
  abbrev pub image : List ℕ
  image = stamp 32 (cal_encode c) counter

  half_kept : (k : ℕ) → 8 ≤ k → k < 27 → le16_load image k ≡ le16_load (cal_encode c) k
  unfolding le16_load
  half_kept k low high = omega (
    arith,
    get_or-stamp 32 (cal_encode c) counter (length-cal_encode c) (omega arith) k low
        (omega (arith, high)),
    get_or-stamp 32 (cal_encode c) counter (length-cal_encode c) (omega arith) (k + 1)
        (omega (arith, low)) (omega (arith, high)),
  )

  fields :
      (le16_load (cal_encode c) 8 ≡ c.cp_anchor_raw)
      × (le16_load (cal_encode c) 10 ≡ c.cp_slope_num)
      × (le16_load (cal_encode c) 12 ≡ c.cp_slope_den)
      × (le16_load (cal_encode c) 14 ≡ c.bl0939_v_uv_per_raw)
      × (le16_load (cal_encode c) 16 ≡ c.bl0939_ia_na_per_raw)
      × (le16_load (cal_encode c) 18 ≡ c.bl0939_ib_ua_per_raw)
      × (le16_load (cal_encode c) 20 ≡ c.bl0939_pa_uw_per_raw)
  unfolding cal_encode zeros le32 le16 le16_load
  fields = omega (
    arith, fits.anchor_fits, fits.num_fits, fits.den_fits, fits.v_fits, fits.ia_fits, fits.ib_fits,
    fits.pa_fits,
  )

  freq_kept : le32_load image 22 ≡ c.bl0939_freq_const
  unfolding cal_encode zeros le32 le16 le32_load
  freq_kept =
      le32_load-stamp 32 (cal_encode c) counter (length-cal_encode c) (omega arith) 22 (omega arith)
        (omega arith)
      ∙ omega (arith, fits.freq_fits)

  front_kept : get_or image 0 0 ≡ c.version
  unfolding cal_encode
  front_kept =
      get_or-stamp_front 32 (cal_encode c) counter (length-cal_encode c) (omega arith) 0
        (omega arith)

  all_kept : cal_decode image ≡ c
  unfolding cal_decode
  all_kept =
      rw
        (
          front_kept,
          half_kept 8 (omega arith) (omega arith) ∙ fields.0,
          half_kept 10 (omega arith) (omega arith) ∙ fields.1,
          half_kept 12 (omega arith) (omega arith) ∙ fields.2,
          half_kept 14 (omega arith) (omega arith) ∙ fields.3,
          half_kept 16 (omega arith) (omega arith) ∙ fields.4,
          half_kept 18 (omega arith) (omega arith) ∙ fields.5,
          half_kept 20 (omega arith) (omega arith) ∙ fields.6,
          freq_kept,
        )
        refl

pub cal_layout-Faithful : Faithful cal_layout CalFits
cal_layout-Faithful = record {
  length-encode = λ c fits. length-cal_encode c;
  decode_stamp = all_kept;
}
