-- ===== src/Persist/Calibration.antt =====
-- The calibration record of src/persist/calibration.c. A word of 16 or 32 bits with a sign is its bits.
pub mod Image
pub mod Migration
pub mod Loads
pub mod Slope
use open_evcharger.Prelude.{
  ℕ, ◌+◌, ◌-◌, ◌*◌, List, [], ◌∷◌, ◌++◌, Bool, true, false, ◌&&◌, Option, none, some, if◌then◌else◌,
  ◌==◌, ltb, get_or,
}
use open_evcharger.Persist.Bytes.{zeros, le32, le32_load}
use open_evcharger.Persist.Slot.{Store, Layout}
use open_evcharger.Persist.Log.{le16, le16_load}

-- `struct calibration`, without the counter and the checksum.
pub record Calibration : Type 0 where
  pub version : ℕ
  pub cp_anchor_raw : ℕ
  pub cp_slope_num : ℕ
  pub cp_slope_den : ℕ
  pub bl0939_v_uv_per_raw : ℕ
  pub bl0939_ia_na_per_raw : ℕ
  pub bl0939_ib_ua_per_raw : ℕ
  pub bl0939_pa_uw_per_raw : ℕ
  pub bl0939_freq_const : ℕ

-- The file's variables: `s_cal`, and the copy for the interrupt, `s_anchor_raw`, `s_slope_num`, `s_slope_den`.
pub record CalState : Type 0 where
  pub s_cal : Calibration
  pub s_anchor_raw : ℕ
  pub s_slope_num : ℕ
  pub s_slope_den : ℕ

unfoldable pub cal_encode : Calibration → List ℕ
cal_encode c =
    c.version
    ∷ (zeros 7
        ++ (le16 c.cp_anchor_raw
            ++ (le16 c.cp_slope_num
                ++ (le16 c.cp_slope_den
                    ++ (le16 c.bl0939_v_uv_per_raw
                        ++ (le16 c.bl0939_ia_na_per_raw
                            ++ (le16 c.bl0939_ib_ua_per_raw
                                ++ (le16 c.bl0939_pa_uw_per_raw
                                    ++ (le32 c.bl0939_freq_const ++ zeros 6)))))))))

unfoldable pub cal_decode : List ℕ → Calibration
cal_decode p = record {
  version = get_or p 0 0;
  cp_anchor_raw = le16_load p 8;
  cp_slope_num = le16_load p 10;
  cp_slope_den = le16_load p 12;
  bl0939_v_uv_per_raw = le16_load p 14;
  bl0939_ia_na_per_raw = le16_load p 16;
  bl0939_ib_ua_per_raw = le16_load p 18;
  bl0939_pa_uw_per_raw = le16_load p 20;
  bl0939_freq_const = le32_load p 22;
}

abbrev pub cal_layout : Layout Calibration
cal_layout = record { size = 32; encode = cal_encode; decode = cal_decode }

abbrev pub cal_defaults : Calibration
cal_defaults = record {
  version = 3;
  cp_anchor_raw = 1462;
  cp_slope_num = 3540;
  cp_slope_den = 459;
  bl0939_v_uv_per_raw = 0;
  bl0939_ia_na_per_raw = 0;
  bl0939_ib_ua_per_raw = 0;
  bl0939_pa_uw_per_raw = 0;
  bl0939_freq_const = 0;
}

unfoldable pub calibration_bl0939_freq_const : CalState → ℕ
calibration_bl0939_freq_const st =
    if st.s_cal.bl0939_freq_const == 0 then 271900 else st.s_cal.bl0939_freq_const

-- The current scale of version 1, a thousand times finer, clamped to 16 bits with a sign.
unfoldable pub finer : ℕ → ℕ
finer ua =
    let below = 65536 - ua in
    if ltb ua 0x8000
    then (if ltb 32767 (ua * 1000) then 32767 else ua * 1000)
    else if ltb 32768 (below * 1000)
    then 0x8000
    else 65536 - below * 1000

-- The two steps of the migration, each on its version.
unfoldable pub migrate : Calibration → Calibration
migrate c =
    let v2 : Calibration =
      if c.version == 1
      then record c { bl0939_ia_na_per_raw = finer c.bl0939_ia_na_per_raw; version = 2 }
      else c in
    if v2.version == 2 then record v2 { bl0939_freq_const = 0; version = 3 } else v2

unfoldable pub needs_migration : Calibration → Bool
needs_migration c = if c.version == 1 then true else c.version == 2

unfoldable pub publish_to_isr : CalState → CalState
publish_to_isr st = record st {
  s_anchor_raw = st.s_cal.cp_anchor_raw;
  s_slope_num = st.s_cal.cp_slope_num;
  s_slope_den = st.s_cal.cp_slope_den;
}

module _ {M : Type 0} (S : Store M Calibration) where
  -- The first component of a result tells whether the call returned 0.
  unfoldable pub calibration_load : CalState → M → Bool × CalState × M
  calibration_load st m = elim (S.load m) [
    | none ↦
        let fresh : CalState = record st { s_cal = cal_defaults } in
        let s = S.store m cal_defaults in
        if s.0 then (true, publish_to_isr fresh, s.1) else (false, fresh, s.1)
    | some r ↦
        let c = migrate r in
        let w = S.store m c in
        let m1 = if needs_migration r then w.1 else m in
        (true, publish_to_isr (record st { s_cal = c }), m1)
  ]

  unfoldable pub calibration_set_cp : CalState → M → (anchor num den : ℕ) → Bool × CalState × M
  calibration_set_cp st m anchor num den =
      let c = st.s_cal in
      let c1 : Calibration = record c {
        version = 3;
        cp_anchor_raw = anchor;
        cp_slope_num = num;
        cp_slope_den = den;
      } in
      let s = S.store m c1 in
      if den == 0
      then (false, st, m)
      else if c.cp_anchor_raw == anchor && (c.cp_slope_num == num && c.cp_slope_den == den)
      then (true, st, m)
      else if s.0
      then (true, publish_to_isr (record st { s_cal = c1 }), s.1)
      else (false, record st { s_cal = c1 }, s.1)

  unfoldable pub calibration_set_bl0939 : CalState → M → (v ia ib pa freq : ℕ) → Bool × CalState × M
  calibration_set_bl0939 st m v ia ib pa freq =
      let c = st.s_cal in
      let c1 : Calibration = record c {
        version = 3;
        bl0939_v_uv_per_raw = v;
        bl0939_ia_na_per_raw = ia;
        bl0939_ib_ua_per_raw = ib;
        bl0939_pa_uw_per_raw = pa;
        bl0939_freq_const = freq;
      } in
      let s = S.store m c1 in
      if c.bl0939_v_uv_per_raw == v
        && (c.bl0939_ia_na_per_raw == ia
            && (c.bl0939_ib_ua_per_raw == ib
                && (c.bl0939_pa_uw_per_raw == pa && c.bl0939_freq_const == freq)))
      then (true, st, m)
      else (s.0, record st { s_cal = c1 }, s.1)
