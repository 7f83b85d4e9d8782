-- ===== src/Persist/Calibration/Migration.antt =====
-- What the migration in calibration_load of src/persist/calibration.c makes of a record of each version, in numbers
-- with a sign.
use open_evcharger.Prelude.{ℕ, ◌+◌, ◌*◌, ◌≡◌, ◌<◌, min, if◌then◌else◌, ◌==◌, arith}
use open_evcharger.Prelude.Int.{ℤ, pos, negsuc, signed16}
use open_evcharger.Persist.Calibration.{Calibration, finer, migrate}

-- A thousand times a number, and the nearest number that an int16_t holds.
abbrev pub thousandfold : ℤ → ℤ
thousandfold (pos n) = pos (n * 1000)
thousandfold (negsuc n) = negsuc (n * 1000 + 999)

abbrev pub clamp16 : ℤ → ℤ
clamp16 (pos n) = pos (min n 32767)
clamp16 (negsuc n) = negsuc (min n 32767)

-- `c` is what the record `r` means in version 3: version 1 counts the current in microamperes, where the
-- later ones count nanoamperes, and before version 3 there is no constant of the frequency. An unknown
-- version is left alone.
pub record IsMigrated (r c : Calibration) : Type 0 where
  pub version_3 :
      c.version ≡ (if r.version == 1 then 3 else if r.version == 2 then 3 else r.version)
  pub anchor_kept : c.cp_anchor_raw ≡ r.cp_anchor_raw
  pub num_kept : c.cp_slope_num ≡ r.cp_slope_num
  pub den_kept : c.cp_slope_den ≡ r.cp_slope_den
  pub v_kept : c.bl0939_v_uv_per_raw ≡ r.bl0939_v_uv_per_raw
  pub ia_scaled : signed16 c.bl0939_ia_na_per_raw ≡ (
      if r.version == 1
      then clamp16 (thousandfold (signed16 r.bl0939_ia_na_per_raw))
      else signed16 r.bl0939_ia_na_per_raw)
  pub ib_kept : c.bl0939_ib_ua_per_raw ≡ r.bl0939_ib_ua_per_raw
  pub pa_kept : c.bl0939_pa_uw_per_raw ≡ r.bl0939_pa_uw_per_raw
  pub freq_fresh :
      c.bl0939_freq_const
      ≡ (if r.version == 1 then 0 else if r.version == 2 then 0 else r.bl0939_freq_const)

finer-scaled : (ua : ℕ) → ua < 65536 → signed16 (finer ua) ≡ clamp16 (thousandfold (signed16 ua))
unfolding finer
finer-scaled ua h = ground (arith, h)

pub migrate-IsMigrated :
    (r : Calibration) → r.bl0939_ia_na_per_raw < 65536 → IsMigrated r (migrate r)
unfolding migrate
migrate-IsMigrated r fits =
    let s = finer-scaled r.bl0939_ia_na_per_raw fits in
    record {
      version_3 = ground arith;
      anchor_kept = ground arith;
      num_kept = ground arith;
      den_kept = ground arith;
      v_kept = ground arith;
      ia_scaled = ground (arith, s);
      ib_kept = ground arith;
      pa_kept = ground arith;
      freq_fresh = ground arith;
    }
