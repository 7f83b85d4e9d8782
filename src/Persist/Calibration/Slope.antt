-- ===== src/Persist/Calibration/Slope.antt =====
-- Changes of the calibration of src/persist/calibration.c: what the interrupt reads, and what is stored.
use open_evcharger.Prelude.{
  ℕ, ◌≡◌, ◌≢◌, ◌⊎◌, refl, sym, ap, ◌∙◌, Bool, true, false, ◌&&◌, some, ◌==◌, Bool-cases, inl, inr,
  arith,
}
use open_evcharger.Persist.Slot.{Store, Durable}
use open_evcharger.Persist.Calibration.{
  Calibration, CalState, publish_to_isr, calibration_set_cp, calibration_set_bl0939,
}
use open_evcharger.Persist.Calibration.Image.{CalFits}

-- The calls that change the calibration.
pub data CalCall : Type 0 where
  set_cp : (anchor num den : ℕ) → CalCall
  set_bl0939 : (v ia ib pa freq : ℕ) → CalCall

unfoldable pub cal_call :
    {M : Type 0} → Store M Calibration → CalCall → CalState → M → Bool × CalState × M
cal_call S (set_cp anchor num den) st m = calibration_set_cp S st m anchor num den
cal_call S (set_bl0939 v ia ib pa freq) st m = calibration_set_bl0939 S st m v ia ib pa freq

-- The record that a call asks for.
unfoldable pub asked : CalCall → Calibration → Calibration
asked (set_cp anchor num den) c = record c {
  version = 3;
  cp_anchor_raw = anchor;
  cp_slope_num = num;
  cp_slope_den = den;
}
asked (set_bl0939 v ia ib pa freq) c = record c {
  version = 3;
  bl0939_v_uv_per_raw = v;
  bl0939_ia_na_per_raw = ia;
  bl0939_ib_ua_per_raw = ib;
  bl0939_pa_uw_per_raw = pa;
  bl0939_freq_const = freq;
}

-- The copy for the interrupt is that of the record.
pub record IsPublished (st : CalState) : Type 0 where
  pub anchor : st.s_anchor_raw ≡ st.s_cal.cp_anchor_raw
  pub num : st.s_slope_num ≡ st.s_cal.cp_slope_num
  pub den : st.s_slope_den ≡ st.s_cal.cp_slope_den

-- The copy for the interrupt, as the conversion reads it.
abbrev pub isr_copy : CalState → ℕ × ℕ × ℕ
isr_copy st = (st.s_anchor_raw, st.s_slope_num, st.s_slope_den)

module _ {M : Type 0} (S : Store M Calibration) (st : CalState) (m : M) where
  -- A slope that divides by zero is never published: the copy for the interrupt has a divisor other than
  -- zero after every call, if it had one before, and the record for it too.
  pub cal_call-den :
      (c : CalCall)
      → st.s_slope_den ≢ 0
      → st.s_cal.cp_slope_den ≢ 0
      → let r = cal_call S c st m in (r.1.s_slope_den ≢ 0) × (r.1.s_cal.cp_slope_den ≢ 0)
  unfolding cal_call calibration_set_cp calibration_set_bl0939 publish_to_isr
  cal_call-den (set_cp anchor num den) isr rec = ground arith
  cal_call-den (set_bl0939 v ia ib pa freq) isr rec = ground arith

  -- How a call ends: nothing to do or refused, stored, or not stored.
  pub call-cases :
      (c : CalCall)
      → ((r : Bool) × (cal_call S c st m ≡ (r, st, m)))
        ⊎ (let s = S.store m (asked c st.s_cal) in
            ((s.0 ≡ true)
              × ((st1 : CalState) × (cal_call S c st m ≡ (true, st1, s.1))
                  × (st1.s_cal ≡ asked c st.s_cal)
                  × (IsPublished st → IsPublished st1)))
            ⊎ ((s.0 ≡ false)
                × (cal_call S c st m ≡ (false, record st { s_cal = asked c st.s_cal }, s.1))))
  unfolding cal_call asked calibration_set_cp calibration_set_bl0939 publish_to_isr
  call-cases (set_cp anchor num den) = elim (Bool-cases (den == 0)) [
    | inl z ↦ inl (false, rw z refl)
    | inr nz ↦
        elim (Bool-cases (
          st.s_cal.cp_anchor_raw == anchor
          && (st.s_cal.cp_slope_num == num && st.s_cal.cp_slope_den == den))) [
            | inl h ↦ inl (true, rw (nz, h) refl)
            | inr h ↦
                let c1 : Calibration = record (st.s_cal) {
                  version = 3;
                  cp_anchor_raw = anchor;
                  cp_slope_num = num;
                  cp_slope_den = den;
                } in
                let st1 : CalState = publish_to_isr (record st { s_cal = c1 }) in
                elim (Bool-cases (S.store m c1).0) [
                  | inl k ↦ inr (
                      inl (
                        k,
                        (
                          st1,
                          rw (nz, h, k) refl,
                          refl,
                          λ p. record { anchor = refl; num = refl; den = refl },
                        ),
                      ))
                  | inr k ↦ inr (inr (k, rw (nz, h, k) refl))
                ]
          ]
  ]
  call-cases (set_bl0939 v ia ib pa freq) =
      let c = st.s_cal in
      elim (Bool-cases (
        c.bl0939_v_uv_per_raw == v
        && (c.bl0939_ia_na_per_raw == ia
            && (c.bl0939_ib_ua_per_raw == ib
                && (c.bl0939_pa_uw_per_raw == pa && c.bl0939_freq_const == freq))))) [
                  | inl h ↦ inl (true, rw h refl)
                  | inr h ↦
                      let c1 : Calibration = asked (set_bl0939 v ia ib pa freq) c in
                      elim (Bool-cases (S.store m c1).0) [
                        | inl k ↦ inr (
                            inl (
                              k,
                              (
                                record st { s_cal = c1 },
                                rw (h, k) refl,
                                refl,
                                λ p. record { anchor = p.anchor; num = p.num; den = p.den },
                              ),
                            ))
                        | inr k ↦ inr (inr (k, rw (h, k) refl))
                      ]
                ]

  -- On a store that keeps what it reports as stored, for a record that is the stored one and published to the
  -- interrupt: after a call, with words of their width, that returns 0 the record in memory is again the stored
  -- one and published; after one that does not, what the interrupt reads is unchanged.
  pub cal_call-durable :
      Durable S CalFits
      → S.load m ≡ some st.s_cal
      → IsPublished st
      → (c : CalCall) → CalFits (asked c st.s_cal)
      → let r = cal_call S c st m in
        (r.0 ≡ true → (S.load r.2 ≡ some r.1.s_cal) × IsPublished r.1)
        × (r.0 ≡ false → isr_copy r.1 ≡ isr_copy st)
  cal_call-durable durable held pub_ok c fits = elim (call-cases c) [
    | inl (b, e) ↦ rw e (λ h. (held, pub_ok), λ h. refl)
    | inr (inl (ok, (st1, e, same, keep))) ↦ rw e (
      λ h. (durable.load_store m (asked c st.s_cal) fits ok ∙ ap some (sym same), keep pub_ok),
      λ h. absurd (ground (arith, h)),
    )
    | inr (inr (bad, e)) ↦ rw e (λ h. absurd (ground (arith, h)), λ h. refl)
  ]

  -- A change of the slope whose store fails, asked for again, returns 0: it writes nothing, and what
  -- the interrupt reads is still the old slope.
  pub set_cp-retried :
      (anchor num den : ℕ)
      → den ≢ 0
      → (calibration_set_cp S st m anchor num den).0 ≡ false
      → let r = calibration_set_cp S st m anchor num den in
        (calibration_set_cp S r.1 r.2 anchor num den ≡ (true, r.1, r.2))
        × (isr_copy r.1 ≡ isr_copy st)
  unfolding calibration_set_cp
  set_cp-retried anchor num den nz failed = ground arith
