-- ===== src/Persist/Calibration/Loads.antt =====
-- Loading and migrating the calibration of src/persist/calibration.c.
use mathlib.Core.Path.{subst}
use open_evcharger.Prelude.{
  ℕ, ◌||◌, ◌==◌, ◌≡◌, ◌<◌, ◌⊎◌, refl, sym, ap, ◌∙◌, true, false, Option, none, some, if◌then◌else◌,
  inl, inr, arith,
}
use open_evcharger.Persist.Slot.{Store}
use open_evcharger.Persist.Calibration.{
  Calibration, CalState, finer, migrate, needs_migration, publish_to_isr, calibration_load,
}
use open_evcharger.Persist.Calibration.Image.{CalFits}
use open_evcharger.Persist.Calibration.Migration.{IsMigrated, migrate-IsMigrated}
use open_evcharger.Persist.Calibration.Slope.{isr_copy}

pub migrate-migrate : (c : Calibration) → migrate (migrate c) ≡ migrate c
unfolding migrate
migrate-migrate c = ground arith

-- A record that needs no migration is left as it is, and a migrated one needs none.
pub migrate-done :
    (c : Calibration)
    → (needs_migration (migrate c) ≡ false) × (needs_migration c ≡ false → migrate c ≡ c)
unfolding migrate needs_migration
migrate-done c = (ground arith, λ h. ground (arith, h))

needs_migration-version : (c : Calibration) → needs_migration c ≡ (c.version == 1 || c.version == 2)
unfolding needs_migration
needs_migration-version c = ground arith

finer-fits : (ua : ℕ) → ua < 65536 → finer ua < 65536
unfolding finer
finer-fits ua h = ground (arith, h)

pub migrate-CalFits : (c : Calibration) → CalFits c → CalFits (migrate c)
unfolding migrate
migrate-CalFits c fits = ground (arith, finer-fits c.bl0939_ia_na_per_raw)

module _ {M : Type 0} (S : Store M Calibration) where
  -- The state with the copy for the interrupt.
  abbrev pub published : Calibration → CalState
  published c = record {
    s_cal = c;
    s_anchor_raw = c.cp_anchor_raw;
    s_slope_num = c.cp_slope_num;
    s_slope_den = c.cp_slope_den;
  }

  copied :
      (r : Calibration)
      → IsMigrated r (migrate r)
      → isr_copy (published (migrate r)) ≡ (r.cp_anchor_raw, r.cp_slope_num, r.cp_slope_den)
  copied r spec = rw (spec.anchor_kept, spec.num_kept, spec.den_kept) refl

  -- What a load makes of a record that is there.
  pub load-found :
      (st : CalState) (m : M) (r : Calibration)
      → S.load m ≡ some r
      → calibration_load S st m
        ≡ (true, published (migrate r), if needs_migration r then (S.store m (migrate r)).1 else m)
  unfolding calibration_load publish_to_isr
  load-found st m r e = rw (e, calibration_load) refl

  some_inside : (a b : Calibration) → some a ≡ some b → a ≡ b
  some_inside a b h = ap (λ (o : Option Calibration). elim o [ none ↦ a | some x ↦ x ]) h

  unchanged :
      (m1 : M) (r : Calibration)
      → S.load m1 ≡ some r
      → S.load m1 ≡ some (migrate r)
      → (if needs_migration r then (S.store m1 (migrate r)).1 else m1) ≡ m1
  unchanged m1 r old new =
      let same : r ≡ migrate r = some_inside r (migrate r) (sym old ∙ new) in
      let t : needs_migration r ≡ false = ap needs_migration same ∙ (migrate-done r).0 in rw t refl

  -- On a record of any version, whose current scale has 16 bits: the load returns 0, the record in memory is what
  -- the record means in the newest version (a scale in microamperes in nanoamperes, clamped), and the copy for
  -- the interrupt is the anchor, the numerator and the divisor of the record. It is written exactly if the
  -- version was 1 or 2. A load after it gives the same values, also when the migration could not be stored, or
  -- its power was cut, as long as the slots then hold the old record or the migrated one, and writes nothing if
  -- they hold the migrated one.
  pub load-again :
      (st st1 : CalState) (m m1 : M) (r : Calibration)
      → r.bl0939_ia_na_per_raw < 65536
      → S.load m ≡ some r
      → (S.load m1 ≡ some r) ⊎ (S.load m1 ≡ some (migrate r))
      → let first = calibration_load S st m in
        let second = calibration_load S st1 m1 in
        (first.0 ≡ true)
        × IsMigrated r first.1.s_cal
        × (first.1.s_cal ≡ migrate r)
        × (isr_copy first.1 ≡ (r.cp_anchor_raw, r.cp_slope_num, r.cp_slope_den))
        × (first.2 ≡ (if r.version == 1 || r.version == 2 then (S.store m first.1.s_cal).1 else m))
        × (second.0 ≡ true)
        × (second.1 ≡ first.1)
        × (S.load m1 ≡ some (migrate r) → second.2 ≡ m1)
  load-again st st1 m m1 r fits e held =
      let spec = migrate-IsMigrated r fits in
      let first = load-found st m r e in
      let second : (x : M) × (calibration_load S st1 m1 ≡ (true, published (migrate r), x))
          × (S.load m1 ≡ some (migrate r) → x ≡ m1) =
        elim held [
          | inl old ↦ (
            if needs_migration r then (S.store m1 (migrate r)).1 else m1,
            load-found st1 m1 r old,
            λ new. unchanged m1 r old new,
          )
          | inr new ↦ (
            m1,
            load-found st1 m1 (migrate r) new
                ∙ ap
                    (λ c. (
                      true,
                      published c,
                      if needs_migration (migrate r) then (S.store m1 c).1 else m1,
                    ))
                    (migrate-migrate r)
                ∙ ap
                    (λ t.
                      (true, published (migrate r), if t then (S.store m1 (migrate r)).1 else m1))
                    (migrate-done r).0,
            λ new2. refl,
          )
        ] in
      (
        ap (λ x. x.0) first,
        subst (λ c. IsMigrated r c) (sym (ap (λ x. x.1.s_cal) first)) spec,
        ap (λ x. x.1.s_cal) first,
        ap (λ x. isr_copy x.1) first ∙ copied r spec,
        ap (λ x. x.2) first
            ∙ ap (λ t. if t then (S.store m (migrate r)).1 else m) (needs_migration-version r)
            ∙ ap (λ c. if r.version == 1 || r.version == 2 then (S.store m c).1 else m)
                (sym (ap (λ x. x.1.s_cal) first)),
        ap (λ x. x.0) second.1,
        ap (λ x. x.1) second.1 ∙ sym (ap (λ x. x.1) first),
        λ new. ap (λ x. x.2) second.1 ∙ second.2 new,
      )
